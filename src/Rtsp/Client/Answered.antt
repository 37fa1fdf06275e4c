-- ===== src/Rtsp/Client/Answered.antt =====
-- packages/rtsp/src: a request of the client, and the response of its CSeq.
use apple_protocols.Prelude.{
  ℕ, zero, suc, [], ◌∷◌, some, true, false, ◌≡◌, refl, ap, ◌∙◌, arith, inl, inr, Bool-cases,
  drop-all, length, Bytes,
}
use apple_protocols.Rtsp.Text.{Text, all, is_digit, is_empty, same}
use apple_protocols.Rtsp.Decimal.{to_text, value, value-to_text, to_text-all, to_text-nonempty}
use apple_protocols.Rtsp.Parsed.{ok}
use apple_protocols.Rtsp.Headers.{Headers, lookup, put, put_all, content_length, cseq_name}
use apple_protocols.Rtsp.Response.{Response}
use apple_protocols.Rtsp.Plain.{IsFresh, put-same, put-other}
use apple_protocols.Rtsp.Responses.{response_headers, response_of}
use apple_protocols.Rtsp.StartLine.{take_while-all}
use apple_protocols.Rtsp.Client.{Client, parse_int, cseq_of}
use apple_protocols.Rtsp.Client.Receive.{answer, next_response, waits, turn, responses}

same_sym : (a b : Text) → same a b ≡ same b a
same_sym [] [] = refl
same_sym [] (b ∷ bs) = refl
same_sym (a ∷ xs) [] = refl
same_sym (a ∷ xs) (b ∷ bs) = rw (same_sym xs bs) (ground arith)

same_eq : (a b : Text) → same a b ≡ true → a ≡ b
same_eq [] [] h = refl
same_eq [] (b ∷ bs) h = absurd (ground (arith, h))
same_eq (a ∷ xs) [] h = absurd (ground (arith, h))
same_eq (a ∷ xs) (b ∷ bs) h = ground (arith, same_eq xs bs)

lookup-put_other :
    (headers : Headers) (name text k : Text)
    → same name k ≡ false
    → lookup (put headers name text) k ≡ lookup headers k
lookup-put_other [] name text k h = ground arith
lookup-put_other ((other, old) ∷ headers) name text k h = elim (Bool-cases (same other name)) [
  | inl e ↦
      rw (put-same headers other old name text e)
        (ground (arith, ap (λ n. same n k) (same_eq other name e) ∙ h))
  | inr e ↦
      rw (put-other headers other old name text e)
        (ground (arith, lookup-put_other headers name text k))
]

parse_int-digits :
    (text : Text)
    → all is_digit text ≡ true
    → is_empty text ≡ false
    → parse_int text ≡ some (value text)
unfolding parse_int
parse_int-digits [] h k = absurd (ground (arith, k))
parse_int-digits (c ∷ cs) h k = ground (arith, take_while-all is_digit (c ∷ cs) h)

lookup-put_all :
    (headers more : Headers) (k : Text)
    → IsFresh k more
    → lookup (put_all headers more) k ≡ lookup headers k
lookup-put_all headers [] k f = refl
lookup-put_all headers ((name, text) ∷ more) k (e, f) =
    lookup-put_all (put headers name text) more k f
    ∙ lookup-put_other headers name text k (same_sym name k ∙ e)

-- The number of a response that was built with it.
pub cseq_of-response :
    (n status : ℕ) (reason : Text) (more : Headers) (body : Bytes)
    → IsFresh cseq_name more
    → cseq_of
        (response_of status reason (response_headers ((cseq_name, to_text n) ∷ more) body) body)
      ≡ some n
unfolding cseq_of
cseq_of-response n status reason more body f =
    rw
      (
        lookup-put_other (put_all ((cseq_name, to_text n) ∷ []) more) content_length
            (to_text (length body)) cseq_name refl,
        lookup-put_all ((cseq_name, to_text n) ∷ []) more cseq_name f,
        parse_int-digits (to_text n) (to_text-all n) (to_text-nonempty n),
        value-to_text n,
      )
      refl

module _ {K : Type 0} where
  responses-empty : (f : ℕ) (c : Client K) → c.buffer ≡ [] → responses f c ≡ waits c
  unfolding responses turn next_response
  responses-empty zero c e = rw e refl
  responses-empty (suc f) c e = rw e refl

  -- One response that fills the buffer.
  pub responses-one :
      (f : ℕ) (c : Client K) (response : Response)
      → next_response c.buffer ≡ ok (some (response, length c.buffer))
      → (answer response (record c { buffer = [] })).buffer ≡ []
      → responses (suc f) c ≡ waits (answer response (record c { buffer = [] }))
  unfolding responses turn
  responses-one f c response e b =
      rw (e, drop-all (length c.buffer) c.buffer (omega arith))
        (responses-empty f (answer response (record c { buffer = [] })) b)

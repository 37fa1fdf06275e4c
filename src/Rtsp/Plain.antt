-- ===== src/Rtsp/Plain.antt =====
-- packages/rtsp/src: headers that are read back as they were written.
use apple_protocols.Prelude.{
  ℕ, [], ◌∷◌, ◌++◌, some, Bool, true, false, not, ◌==◌, ◌≡◌, refl, ap, ◌∙◌, arith, map, length, inl,
  inr, Bool-cases, ==_refl,
}
use apple_protocols.Rtsp.Text.{Text, codes, all, is_empty, same, after, index_of, trim}
use apple_protocols.Rtsp.Headers.{Headers, lookup, put, put_all, normal_name}
use apple_protocols.Rtsp.Build.{header_line}
use apple_protocols.Rtsp.Lines.{is_not_return, IsLine, AreLines, all_split}

abbrev is_not_colon : ℕ → Bool
is_not_colon c = not (c == b':')

-- A name in the form that the parser gives it, with no character that ends it.
pub record IsName (name : Text) : Type 0 where
  pub normal : normal_name name ≡ name
  pub trimmed : trim name ≡ name
  pub inked : is_empty name ≡ false
  pub unbroken : all is_not_return name ≡ true
  pub closed : all is_not_colon name ≡ true
  pub kept : same name (codes "__proto__") ≡ false

pub record IsText (text : Text) : Type 0 where
  pub trimmed : trim text ≡ text
  pub unbroken : all is_not_return text ≡ true

-- No header has the name.
abbrev pub IsFresh : Text → Headers → Type 0
IsFresh name [] = Unit
IsFresh name ((other, text) ∷ headers) = (same name other ≡ false) × IsFresh name headers

-- Names and texts as above, and no name twice.
abbrev pub ArePlain : Headers → Type 0
ArePlain [] = Unit
ArePlain ((name, text) ∷ headers) =
    (IsName name × IsText text) × (IsFresh name headers × ArePlain headers)

pub same_refl : (a : Text) → same a a ≡ true
same_refl [] = refl
same_refl (c ∷ cs) = rw (==_refl c, same_refl cs) refl

pub put-same :
    (headers : Headers) (other old name text : Text)
    → same other name ≡ true
    → put ((other, old) ∷ headers) name text ≡ (other, text) ∷ headers
put-same headers other old name text e = ground arith

pub put-other :
    (headers : Headers) (other old name text : Text)
    → same other name ≡ false
    → put ((other, old) ∷ headers) name text ≡ (other, old) ∷ put headers name text
put-other headers other old name text e = ground arith

IsFresh-put :
    (k : Text) (headers : Headers) (name text : Text)
    → IsFresh k headers
    → same k name ≡ false
    → IsFresh k (put headers name text)
IsFresh-put k [] name text f h = (h, tt)
IsFresh-put k ((other, old) ∷ headers) name text (g, f) h = elim (Bool-cases (same other name)) [
  | inl e ↦ rw (put-same headers other old name text e) (g, f)
  | inr e ↦ rw (put-other headers other old name text e) (g, IsFresh-put k headers name text f h)
]

-- Writing a plain header keeps headers plain.
pub ArePlain-put :
    (headers : Headers) (name text : Text)
    → ArePlain headers
    → IsName name
    → IsText text
    → ArePlain (put headers name text)
ArePlain-put [] name text p n t = ((n, t), (tt, tt))
ArePlain-put ((other, old) ∷ headers) name text ((m, o), (f, p)) n t =
    elim (Bool-cases (same other name)) [
      | inl e ↦ rw (put-same headers other old name text e) ((m, t), (f, p))
      | inr e ↦
          rw (put-other headers other old name text e) (
            (m, o),
            (IsFresh-put other headers name text f e, ArePlain-put headers name text p n t),
          )
    ]

pub ArePlain-put_all :
    (headers more : Headers) → ArePlain headers → ArePlain more → ArePlain (put_all headers more)
ArePlain-put_all headers [] p q = p
ArePlain-put_all headers ((name, text) ∷ more) p ((n, t), (f, q)) =
    ArePlain-put_all (put headers name text) more (ArePlain-put headers name text p n t) q

pub lookup-put :
    (headers : Headers) (name text : Text) → lookup (put headers name text) name ≡ some text
lookup-put [] name text = ground (arith, same_refl name)
lookup-put ((other, old) ∷ headers) name text = elim (Bool-cases (same other name)) [
  | inl e ↦ rw (put-same headers other old name text e) (ground arith)
  | inr e ↦
      rw (put-other headers other old name text e) (ground (arith, lookup-put headers name text))
]

pub header_line-IsLine :
    (name text : Text) → IsName name → IsText text → IsLine (header_line (name, text))
header_line-IsLine [] text n t = absurd (ground (arith, n.inked))
header_line-IsLine (c ∷ cs) text n t =
    all_append is_not_return (c ∷ cs) (codes ": " ++ text) n.unbroken t.unbroken
  where
    all_append :
        (p : ℕ → Bool) (a b : Text) → all p a ≡ true → all p b ≡ true → all p (a ++ b) ≡ true
    all_append p [] b h k = k
    all_append p (d ∷ ds) b h k =
        rw ((all_split p d ds h).0, all_append p ds b (all_split p d ds h).1 k) refl

pub header_lines-AreLines :
    (headers : Headers) → ArePlain headers → AreLines (map header_line headers)
header_lines-AreLines [] p = tt
header_lines-AreLines ((name, text) ∷ headers) ((n, t), (f, p)) =
    (header_line-IsLine name text n t, header_lines-AreLines headers p)

pub index_of-colon :
    (name behind : Text)
    → all is_not_colon name ≡ true
    → index_of (b':' ∷ []) (name ++ b':' ∷ behind) ≡ some (length name)
index_of-colon [] behind h = refl
index_of-colon (c ∷ cs) behind h =
    colon_step c (cs ++ b':' ∷ behind) (all_split is_not_colon c cs h).0
    ∙ ap after (index_of-colon cs behind (all_split is_not_colon c cs h).1)
  where
    colon_step :
        (c : ℕ) (cs : Text)
        → is_not_colon c ≡ true
        → index_of (b':' ∷ []) (c ∷ cs) ≡ after (index_of (b':' ∷ []) cs)
    colon_step c cs h = ground arith

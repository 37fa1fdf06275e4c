-- ===== src/Rtsp/ReadBack.antt =====
-- packages/rtsp/src: the headers that the parser makes of written ones.
use apple_protocols.Prelude.{
  ℕ, ◌≤◌, [], ◌∷◌, ◌++◌, Option, none, some, Bool, false, ◌&&◌, leb, ◌≡◌, refl, sym, ap, ◌∙◌, arith,
  map, length, append_assoc, append-nil, take-length_append, drop-length_append, drop-drop, le→leb,
}
use apple_protocols.Rtsp.Parsed.{ok}
use apple_protocols.Rtsp.Text.{Text, is_empty, same}
use apple_protocols.Rtsp.Decimal.{to_text, value-to_text, to_text-all, to_text-nonempty}
use apple_protocols.Rtsp.Headers.{
  Headers, lookup, put, content_length, parse_header, parse_headers, max_body_length,
  parse_content_length, conflicts,
}
use apple_protocols.Rtsp.Build.{header_line}
use apple_protocols.Rtsp.Plain.{IsName, IsText, IsFresh, ArePlain, index_of-colon}

leb-length : (name : Text) → is_empty name ≡ false → leb (length name) 0 ≡ false
leb-length [] h = absurd (ground (arith, h))
leb-length (c ∷ cs) h = ground arith

no_conflict :
    (b : Bool) (o : Option Text) (text : Text) → o ≡ none → (b && conflicts o text) ≡ false
no_conflict b o text h = rw h (ground arith)

parse_header-line :
    (headers : Headers) (name text : Text)
    → IsName name
    → IsText text
    → lookup headers name ≡ none
    → parse_header headers (header_line (name, text)) ≡ ok (put headers name text)
unfolding parse_header
parse_header-line headers name text n t h =
    rw
      (
        index_of-colon name (32 ∷ text) n.closed,
        leb-length name n.inked,
        take-length_append name (b':' ∷ 32 ∷ text),
        ← drop-drop (length name) 1 (name ++ (b':' ∷ 32 ∷ text)),
        drop-length_append name (b':' ∷ 32 ∷ text),
        n.trimmed,
        n.normal,
        t.trimmed,
        no_conflict (same name content_length) (lookup headers name) text h,
        n.kept,
      )
      refl

put-fresh :
    (headers : Headers) (name text : Text)
    → lookup headers name ≡ none
    → put headers name text ≡ headers ++ ((name, text) ∷ [])
put-fresh [] name text h = refl
put-fresh ((other, old) ∷ headers) name text h = ground (arith, put-fresh headers name text)

-- None of the later headers has a name of the earlier ones.
AreApart : Headers → Headers → Type 0
AreApart headers [] = Unit
AreApart headers ((name, text) ∷ more) = (lookup headers name ≡ none) × AreApart headers more

lookup-append :
    (headers : Headers) (name text k : Text)
    → lookup headers k ≡ none
    → same name k ≡ false
    → lookup (headers ++ ((name, text) ∷ [])) k ≡ none
lookup-append [] name text k h e = ground arith
lookup-append ((other, old) ∷ headers) name text k h e =
    ground (arith, lookup-append headers name text k)

AreApart-append :
    (headers more : Headers) (name text : Text)
    → AreApart headers more
    → IsFresh name more
    → AreApart (headers ++ ((name, text) ∷ [])) more
unfolding AreApart
AreApart-append headers [] name text a f = tt
AreApart-append headers ((k, other) ∷ more) name text (h, a) (e, f) =
    (lookup-append headers name text k h e, AreApart-append headers more name text a f)

parse_headers-lines :
    (headers more : Headers)
    → ArePlain more
    → AreApart headers more
    → parse_headers headers (map header_line more) ≡ ok (headers ++ more)
unfolding parse_headers AreApart
parse_headers-lines headers [] p a = ap ok (sym (append-nil headers))
parse_headers-lines headers ((name, text) ∷ more) ((n, t), (f, p)) (h, a) =
    rw (parse_header-line headers name text n t h, put-fresh headers name text h)
      (parse_headers-lines (headers ++ ((name, text) ∷ [])) more p
          (AreApart-append headers more name text a f)
        ∙ ap ok (append_assoc headers ((name, text) ∷ []) more))

AreApart-nil : (headers : Headers) → AreApart [] headers
unfolding AreApart
AreApart-nil [] = tt
AreApart-nil ((name, text) ∷ headers) = (refl, AreApart-nil headers)

-- The lines of plain headers are parsed to these headers.
pub parse_headers-header_line :
    (headers : Headers) → ArePlain headers → parse_headers [] (map header_line headers) ≡ ok headers
parse_headers-header_line headers p = parse_headers-lines [] headers p (AreApart-nil headers)

-- A length that was written last is the length that is read.
pub parse_content_length-of :
    (headers : Headers) (n : ℕ)
    → lookup headers content_length ≡ some (to_text n)
    → n ≤ max_body_length
    → parse_content_length headers ≡ ok n
unfolding parse_content_length
parse_content_length-of headers n h k =
    rw (h, to_text-nonempty n, to_text-all n, value-to_text n, le→leb n max_body_length k) refl

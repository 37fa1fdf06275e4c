-- ===== src/Encoding/Tlv8/RoundTrip.antt =====
-- What was encoded decodes: fragments are joined again.
use apple_protocols.Prelude.{
  ℕ, zero, suc, ◌+◌, ◌%◌, ◌≤◌, ◌<◌, List, [], ◌∷◌, ◌++◌, Option, none, some, Bytes, ok, All, length,
  take, drop, ◌==◌, ◌≡◌, refl, sym, ap, ◌∙◌, arith, length-append, length-take, length-drop,
  take-append-drop, lt_or_le, Bool-cases, ==_iff, ==_refl, inl, inr, if◌then◌else◌, append_assoc,
}
use apple_protocols.Prelude.JsMap
use apple_protocols.Prelude.JsMap.{JsMap, get-set, set-set}
use apple_protocols.Encoding.Tlv8.{
  Entry, value_bytes, encode, total_size, joined, append_value, decode_loop, decode,
}
use apple_protocols.Encoding.Tlv8.Encode.{
  fragments, fragments_more, fragments_last, print_entries, encode-print, length-print_entries,
}
use apple_protocols.Encoding.Tlv8.Decode.{decode_loop-record, decode_loop-record_of}

joined-append : (o : Option Bytes) (a b : Bytes) → joined (some (joined o a)) b ≡ joined o (a ++ b)
joined-append none a b = refl
joined-append (some old) a b = append_assoc old a b

append_value-append :
    (t : ℕ) (a b : Bytes) (m : JsMap Bytes)
    → append_value t b (append_value t a m) ≡ append_value t (a ++ b) m
append_value-append t a b m =
    rw (get-set m t t (joined (JsMap.get m t) a), ==_refl t)
      (rw (joined-append (JsMap.get m t) a b) (set-set m t _ _))

-- Reading the fragments of a value joins them to what the map holds of the type.
decode_loop-fragments :
    (g type : ℕ) (value rest : Bytes) (f : ℕ) (m : JsMap Bytes)
    → type < 256
    → length value < g
    → length (fragments g type value) + length rest ≤ f
    → decode_loop f (fragments g type value ++ rest) m
      ≡ decode_loop f rest (append_value type value m)
decode_loop-fragments zero type value rest f m ht hg hf = absurd (omega arith)
decode_loop-fragments (suc g) type value rest f m ht hg hf = elim (lt_or_le 255 (length value)) [
  | inl more ↦
      let first = take 255 value in
      let next = drop 255 value in
      let full : length first ≡ 255 = omega (arith, length-take 255 value) in
      let shorter : length next < g = omega (arith, length-drop 255 value) in
      let sizes : length first + length (fragments g type next) + length rest + 2 ≤ f = omega (
        arith,
        ap length (fragments_more g type value more),
        length-append first (fragments g type next),
      ) in
      rw (fragments_more g type value more, low type ht, append_assoc)
        (decode_loop-record_of f type 255 first (fragments g type next ++ rest) m full
            (omega (arith, length-append (fragments g type next) rest))
          ∙ decode_loop-fragments g type next rest f (append_value type first m) ht shorter
              (omega arith)
          ∙ ap (decode_loop f rest) (
              append_value-append type first next m
              ∙ ap (λ v. append_value type v m) (take-append-drop 255 value)))
  | inr last ↦
      rw (fragments_last g type value last, low type ht)
        (decode_loop-record f type value rest m
          (omega (arith, ap length (fragments_last g type value last))))
]
  where
    low : (t : ℕ) → t < 256 → t % 256 ≡ t
    low t h = omega arith

-- The entries' values, collected by type.
abbrev collect : List Entry → JsMap Bytes → JsMap Bytes
collect [] m = m
collect ((type, raw) ∷ entries) m = collect entries (append_value type (value_bytes raw) m)

decode_loop-print_entries :
    (entries : List Entry) (f : ℕ) (m : JsMap Bytes)
    → All (λ e. e.0 < 256) entries
    → length (print_entries entries) ≤ f
    → decode_loop f (print_entries entries) m ≡ ok (collect entries m)
unfolding print_entries
decode_loop-print_entries [] f m h hf = unfold decode_loop in refl
decode_loop-print_entries ((type, raw) ∷ entries) f m (ht, h) hf =
    let value = value_bytes raw in
    let sizes = length-append (fragments (length value + 1) type value) (print_entries entries) in
    decode_loop-fragments (length value + 1) type value (print_entries entries) f m ht (omega arith)
      (omega (arith, sizes))
    ∙ decode_loop-print_entries entries f (append_value type value m) h (omega (arith, sizes))

-- The bytes of one part before those of another, where there are any.
abbrev join : Option Bytes → Option Bytes → Option Bytes
join none o = o
join (some a) none = some a
join (some a) (some b) = some (a ++ b)

-- What the entries of one type hold together: nothing if there is no such entry, and otherwise
-- their values one after the other.
abbrev pub values_of : ℕ → List Entry → Option Bytes
values_of t [] = none
values_of t ((type, raw) ∷ entries) =
    if type == t then join (some (value_bytes raw)) (values_of t entries) else values_of t entries

join-joined :
    (o : Option Bytes) (v : Bytes) (p : Option Bytes)
    → join (some (joined o v)) p ≡ join o (join (some v) p)
join-joined none v none = refl
join-joined none v (some w) = refl
join-joined (some u) v none = refl
join-joined (some u) v (some w) = ap some (append_assoc u v w)

join-none : (o : Option Bytes) → join o none ≡ o
join-none none = refl
join-none (some a) = refl

get-collect :
    (entries : List Entry) (m : JsMap Bytes) (t : ℕ)
    → JsMap.get (collect entries m) t ≡ join (JsMap.get m t) (values_of t entries)
get-collect [] m t = sym (join-none (JsMap.get m t))
get-collect ((type, raw) ∷ entries) m t =
    let v = value_bytes raw in
    get-collect entries (append_value type v m) t ∙ elim (Bool-cases (type == t)) [
      | inl same ↦
          rw (get-set m type t (joined (JsMap.get m type) v), same)
            (rw ((==_iff type t).0 same) (join-joined (JsMap.get m t) v (values_of t entries)))
      | inr other ↦ rw (get-set m type t (joined (JsMap.get m type) v), other)
    ]

-- For entries whose types are bytes, the encoder returns a buffer of the size that it computed
-- first, and the decoder reads it back: the map holds, for every type, the values of the entries of
-- that type joined in their order, and nothing for a type without an entry.
pub decode-encode :
    (junk : ℕ → ℕ) (entries : List Entry)
    → All (λ e. e.0 < 256) entries
    → (buf : Bytes) × (m : JsMap Bytes) × (encode junk entries ≡ some buf)
      × (length buf ≡ total_size entries)
      × (decode buf ≡ ok m)
      × ((t : ℕ) → JsMap.get m t ≡ values_of t entries)
unfolding decode
decode-encode junk entries h = (
  print_entries entries,
  collect entries [],
  encode-print junk entries,
  length-print_entries entries,
  decode_loop-print_entries entries _ [] h (omega arith),
  get-collect entries [],
)

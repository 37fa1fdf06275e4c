-- ===== src/Encoding/Tlv8/Records.antt =====
-- What the decoder accepts, and what it returns: the values of each type joined, and the types in the
-- order in which they first occur.
use apple_protocols.Prelude.{
  ℕ, List, [], ◌∷◌, ◌++◌, Bytes, false, ok, length, ◌==◌, if◌then◌else◌, ◌≡◌, ◌↔◌, refl, sym, ap,
  ◌∙◌, arith, append_assoc, append-nil, Bool-cases, inl, inr, ==_refl, ==_iff,
}
use apple_protocols.Prelude.JsMap
use apple_protocols.Prelude.JsMap.{JsMap}
use apple_protocols.Encoding.Tlv8.{append_value, decode}
use apple_protocols.Encoding.Tlv8.Decode.{
  print_records, collect_records, decode_loop_sound, decode_loop-print_records,
}

-- The values of a type one behind the other, in the order of their records.
abbrev pub of_type : ℕ → List (ℕ × Bytes) → Bytes
of_type type [] = []
of_type type ((t, value) ∷ records) =
    if t == type then value ++ of_type type records else of_type type records

-- Each type with all its values joined, the types in the order of their first records.
abbrev pub by_type : List (ℕ × Bytes) → JsMap Bytes
by_type [] = []
by_type ((type, value) ∷ records) =
    (type, value ++ of_type type records) ∷ JsMap.delete (by_type records) type

of_type-append :
    (type : ℕ) (xs ys : List (ℕ × Bytes))
    → of_type type (xs ++ ys) ≡ of_type type xs ++ of_type type ys
of_type-append type [] ys = refl
of_type-append type ((t, v) ∷ xs) ys = elim (Bool-cases (t == type)) [
  | inl e ↦
      rw (e, of_type-append type xs ys) (sym (append_assoc v (of_type type xs) (of_type type ys)))
  | inr e ↦ rw e (of_type-append type xs ys)
]

delete-set_same :
    (m : JsMap Bytes) (k : ℕ) (v : Bytes) → JsMap.delete (JsMap.set m k v) k ≡ JsMap.delete m k
delete-set_same [] k v = ground arith
delete-set_same ((j, w) ∷ m) k v = ground (arith, delete-set_same m k v)

delete-set_other :
    (m : JsMap Bytes) (k j : ℕ) (v : Bytes)
    → (k == j) ≡ false
    → JsMap.delete (JsMap.set m j v) k ≡ JsMap.set (JsMap.delete m k) j v
delete-set_other [] k j v h = ground arith
delete-set_other ((i, w) ∷ m) k j v h = ground (arith, delete-set_other m k j v h)

get-delete_other :
    (m : JsMap Bytes) (k j : ℕ) → (k == j) ≡ false → JsMap.get (JsMap.delete m k) j ≡ JsMap.get m j
get-delete_other [] k j h = refl
get-delete_other ((i, w) ∷ m) k j h = ground (arith, get-delete_other m k j h)

delete-append_value :
    (m : JsMap Bytes) (k j : ℕ) (v : Bytes)
    → (k == j) ≡ false
    → JsMap.delete (append_value j v m) k ≡ append_value j v (JsMap.delete m k)
delete-append_value m k j v h = rw (get-delete_other m k j h) (delete-set_other m k j _ h)

-- A record at the end is added to what its type holds.
by_type-snoc :
    (records : List (ℕ × Bytes)) (type : ℕ) (value : Bytes)
    → by_type (records ++ ((type, value) ∷ [])) ≡ append_value type value (by_type records)
by_type-snoc [] type value = rw (append-nil value) refl
by_type-snoc ((t, v) ∷ records) type value = elim (Bool-cases (t == type)) [
  | inl e ↦ rw (← (==_iff t type).0 e) (
      rw
        (
          by_type-snoc records t value,
          of_type-append t records ((t, value) ∷ []),
          ==_refl t,
          append-nil value,
          delete-set_same (by_type records) t _,
        )
        (ap (λ w. (t, w) ∷ JsMap.delete (by_type records) t)
          (sym (append_assoc v (of_type t records) value))))
  | inr e ↦
      let other : (type == t) ≡ false = ground arith in
      rw
        (
          by_type-snoc records type value,
          of_type-append t records ((type, value) ∷ []),
          other,
          e,
          append-nil (of_type t records),
          delete-append_value (by_type records) t type value e,
        )
        refl
]

collect_records-by_type :
    (records before : List (ℕ × Bytes))
    → collect_records records (by_type before) ≡ by_type (before ++ records)
collect_records-by_type [] before = ap by_type (sym (append-nil before))
collect_records-by_type ((t, v) ∷ records) before =
    ap (collect_records records) (sym (by_type-snoc before t v))
    ∙ collect_records-by_type records (before ++ ((t, v) ∷ []))
    ∙ ap by_type (append_assoc before ((t, v) ∷ []) records)

-- The decoder accepts exactly the buffers that are a sequence of complete records. The map that it
-- returns has the types in the order of their first records, each with all its values joined in
-- the order of their records, whether these follow one another or not.
pub decode-eq-ok_iff :
    (buf : Bytes) (m : JsMap Bytes)
    → (decode buf ≡ ok m)
      ↔ ((records : List (ℕ × Bytes)) × (buf ≡ print_records records) × (m ≡ by_type records))
unfolding decode
decode-eq-ok_iff buf m = (
  λ e.
      let (records, printed, r) = decode_loop_sound (length buf) buf [] m e in
      (records, printed, r ∙ collect_records-by_type records []),
  λ (records, e, r).
      rw (e, r)
        (decode_loop-print_records records _ [] (omega arith)
          ∙ ap ok (collect_records-by_type records [])),
)

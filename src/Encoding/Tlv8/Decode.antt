-- ===== src/Encoding/Tlv8/Decode.antt =====
-- The decoder: it ends on every input, and what it reads are complete records.
use apple_protocols.Prelude.{
  ℕ, zero, suc, ◌+◌, ◌≤◌, ◌<◌, List, [], ◌∷◌, ◌++◌, Bytes, ok, thrown, out_of_fuel, length, take,
  drop, ◌≡◌, ◌≢◌, refl, sym, ◌∙◌, arith, length-append, length-take, length-drop, take-append-drop,
  take-length_append, drop-length_append, lt→ltb, le→ltb_false, lt_or_le, inl, inr,
}
use apple_protocols.Prelude.JsMap.{JsMap}
use apple_protocols.Encoding.Tlv8.{truncated_value, append_value, decode_loop, decode}

decode_loop_cut :
    (fuel type len : ℕ) (rest : Bytes) (m : JsMap Bytes)
    → length rest < len
    → decode_loop (suc fuel) (type ∷ len ∷ rest) m ≡ thrown truncated_value
unfolding decode_loop
decode_loop_cut fuel type len rest m h = rw (lt→ltb (length rest) len h)

decode_loop_step :
    (fuel type len : ℕ) (rest : Bytes) (m : JsMap Bytes)
    → len ≤ length rest
    → decode_loop (suc fuel) (type ∷ len ∷ rest) m
      ≡ decode_loop fuel (drop len rest) (append_value type (take len rest) m)
unfolding decode_loop
decode_loop_step fuel type len rest m h = rw (le→ltb_false (length rest) len h)

-- Fuel above the input's length makes no difference.
pub decode_loop_fuel :
    (f g : ℕ) (src : Bytes) (m : JsMap Bytes)
    → length src ≤ f
    → length src ≤ g
    → decode_loop f src m ≡ decode_loop g src m
decode_loop_fuel f g [] m hf hg = unfold decode_loop in refl
decode_loop_fuel f g (t ∷ []) m hf hg = unfold decode_loop in refl
decode_loop_fuel zero g (t ∷ len ∷ rest) m hf hg = absurd (omega arith)
decode_loop_fuel (suc f) zero (t ∷ len ∷ rest) m hf hg = absurd (omega arith)
decode_loop_fuel (suc f) (suc g) (t ∷ len ∷ rest) m hf hg =
    let left = length-drop len rest in
    elim (lt_or_le (length rest) len) [
      | inl cut ↦ rw (decode_loop_cut f t len rest m cut, decode_loop_cut g t len rest m cut)
      | inr fits ↦
          rw (decode_loop_step f t len rest m fits, decode_loop_step g t len rest m fits)
            (decode_loop_fuel f g (drop len rest) _ (omega (arith, left)) (omega (arith, left)))
    ]

pub decode_loop-ne-out_of_fuel :
    (f : ℕ) (src : Bytes) (m : JsMap Bytes) → length src ≤ f → decode_loop f src m ≢ out_of_fuel
decode_loop-ne-out_of_fuel f [] m h = unfold decode_loop in λ e. cc
decode_loop-ne-out_of_fuel f (t ∷ []) m h = unfold decode_loop in λ e. cc
decode_loop-ne-out_of_fuel zero (t ∷ len ∷ rest) m h = absurd (omega arith)
decode_loop-ne-out_of_fuel (suc f) (t ∷ len ∷ rest) m h = elim (lt_or_le (length rest) len) [
  | inl cut ↦ rw (decode_loop_cut f t len rest m cut) (λ e. cc)
  | inr fits ↦
      rw (decode_loop_step f t len rest m fits)
        (decode_loop-ne-out_of_fuel f (drop len rest) _ (omega (arith, length-drop len rest)))
]

-- A complete record is read off the front, and its value goes to the map.
pub decode_loop-record :
    (f type : ℕ) (value rest : Bytes) (m : JsMap Bytes)
    → length value + length rest + 2 ≤ f
    → decode_loop f (type ∷ length value ∷ (value ++ rest)) m
      ≡ decode_loop f rest (append_value type value m)
decode_loop-record zero type value rest m h = absurd (omega arith)
decode_loop-record (suc f) type value rest m h =
    rw
      (decode_loop_step f type (length value) (value ++ rest) m
        (omega (arith, length-append value rest)))
      (rw (drop-length_append value rest, take-length_append value rest)
        (decode_loop_fuel f (suc f) rest _ (omega arith) (omega arith)))

pub decode_loop-record_of :
    (f type len : ℕ) (value rest : Bytes) (m : JsMap Bytes)
    → length value ≡ len
    → length value + length rest + 2 ≤ f
    → decode_loop f (type ∷ len ∷ (value ++ rest)) m
      ≡ decode_loop f rest (append_value type value m)
decode_loop-record_of f type len value rest m e h =
    rw (← e) (decode_loop-record f type value rest m h)

-- A sequence of records, as it stands in a buffer, and the map that it decodes to.
abbrev pub print_records : List (ℕ × Bytes) → Bytes
print_records [] = []
print_records ((type, value) ∷ records) = type ∷ length value ∷ (value ++ print_records records)

abbrev pub collect_records : List (ℕ × Bytes) → JsMap Bytes → JsMap Bytes
collect_records [] m = m
collect_records ((type, value) ∷ records) m = collect_records records (append_value type value m)

pub decode_loop-print_records :
    (records : List (ℕ × Bytes)) (f : ℕ) (m : JsMap Bytes)
    → length (print_records records) ≤ f
    → decode_loop f (print_records records) m ≡ ok (collect_records records m)
decode_loop-print_records [] f m h = unfold decode_loop in refl
decode_loop-print_records ((t, v) ∷ records) f m h =
    let sizes = length-append v (print_records records) in
    rw (decode_loop-record f t v (print_records records) m (omega (arith, sizes)))
      (decode_loop-print_records records f (append_value t v m) (omega (arith, sizes)))

-- The records that were read, with the equations that they satisfy.
abbrev pub Read : Bytes → JsMap Bytes → JsMap Bytes → Type 0
Read src m result =
    (records : List (ℕ × Bytes)) × (src ≡ print_records records)
    × (result ≡ collect_records records m)

add_record :
    (type len : ℕ) (rest : Bytes) (m result : JsMap Bytes)
    → len ≤ length rest
    → Read (drop len rest) (append_value type (take len rest) m) result
    → Read (type ∷ len ∷ rest) m result
add_record type len rest m result h (records, e, r) =
    ((type, take len rest) ∷ records, rw (exact, ← e, take-append-drop len rest), r)
  where
    exact : length (take len rest) ≡ len
    exact = omega (arith, length-take len rest)

pub decode_loop_sound :
    (f : ℕ) (src : Bytes) (m result : JsMap Bytes)
    → decode_loop f src m ≡ ok result
    → Read src m result
decode_loop_sound f [] m result e = ([], refl, unfold decode_loop in cc)
decode_loop_sound f (t ∷ []) m result e = unfold decode_loop in cc
decode_loop_sound zero (t ∷ len ∷ rest) m result e = unfold decode_loop in cc
decode_loop_sound (suc f) (t ∷ len ∷ rest) m result e = elim (lt_or_le (length rest) len) [
  | inl cut ↦ cc (decode_loop_cut f t len rest m cut)
  | inr fits ↦ add_record t len rest m result fits (
      decode_loop_sound f (drop len rest) _ result (sym (decode_loop_step f t len rest m fits) ∙ e))
]

-- The decoder ends on every input: it returns a map or throws one of its two errors.
pub decode-ne-out_of_fuel : (buf : Bytes) → decode buf ≢ out_of_fuel
unfolding decode
decode-ne-out_of_fuel buf = decode_loop-ne-out_of_fuel (length buf) buf [] (omega arith)

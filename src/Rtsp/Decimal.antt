-- ===== src/Rtsp/Decimal.antt =====
-- Decimal numerals, as template strings write them and as `Number` and `parseInt` read them.
use apple_protocols.Prelude.{
  ℕ, zero, suc, ◌+◌, ◌-◌, ◌*◌, ◌/◌, ◌%◌, ◌<◌, [], ◌∷◌, Bool, true, false, ltb, ◌≡◌, refl, ap, inl,
  inr, arith, ◌∙◌, lt_or_le, Bool-cases, lt→ltb, le→ltb_false,
}
use apple_protocols.Rtsp.Text.{Text, is_digit, is_empty, all}

-- The digits of a number in front of a text. Each round takes one digit off, so that a fuel above
-- the number is enough.
abbrev digits : ℕ → ℕ → Text → Text
digits zero n behind = behind
digits (suc fuel) n behind = elim (ltb n 10) [
  | true ↦ (48 + n % 10) ∷ behind
  | false ↦ digits fuel (n / 10) ((48 + n % 10) ∷ behind)
]

-- `${n}`
unfoldable pub to_text : ℕ → Text
to_text n = digits (suc n) n []

abbrev pub value_from : ℕ → Text → ℕ
value_from n [] = n
value_from n (c ∷ cs) = value_from (n * 10 + (c - 48)) cs

-- The number that digits stand for.
unfoldable pub value : Text → ℕ
value cs = value_from 0 cs

abbrev more : Bool → ℕ → ℕ → Text → Text
more true fuel n behind = behind
more false fuel n behind = digits fuel (n / 10) behind

digits_step :
    (fuel n : ℕ) (behind : Text)
    → digits (suc fuel) n behind ≡ more (ltb n 10) fuel n ((48 + n % 10) ∷ behind)
digits_step fuel n behind = ground arith

digits-value :
    (fuel n : ℕ) (behind : Text)
    → n < fuel
    → value_from 0 (digits fuel n behind) ≡ value_from n behind
digits-value zero n behind h = absurd (omega arith)
digits-value (suc fuel) n behind h = elim (lt_or_le n 10) [
  | inl k ↦
      rw (digits_step fuel n behind)
        (rw (lt→ltb n 10 k) (ap (λ m. value_from m behind) (omega arith)))
  | inr k ↦ rw (digits_step fuel n behind) (
      rw (le→ltb_false n 10 k) (
        digits-value fuel (n / 10) ((48 + n % 10) ∷ behind) (omega arith)
        ∙ ap (λ m. value_from m behind) (omega arith)))
]

pub value-to_text : (n : ℕ) → value (to_text n) ≡ n
unfolding value to_text
value-to_text n = digits-value (suc n) n [] (omega arith)

digit-is_digit : (n : ℕ) → is_digit (48 + n % 10) ≡ true
digit-is_digit n = ground arith

digits-all :
    (fuel n : ℕ) (behind : Text)
    → all is_digit behind ≡ true
    → all is_digit (digits fuel n behind) ≡ true
digits-all zero n behind h = h
digits-all (suc fuel) n behind h = elim (Bool-cases (ltb n 10)) [
  | inl k ↦ rw (digits_step fuel n behind) (rw k (rw (digit-is_digit n) h))
  | inr k ↦
      rw (digits_step fuel n behind)
        (rw k (digits-all fuel (n / 10) ((48 + n % 10) ∷ behind) (rw (digit-is_digit n) h)))
]

-- A numeral is made of digits.
pub to_text-all : (n : ℕ) → all is_digit (to_text n) ≡ true
unfolding to_text
to_text-all n = digits-all (suc n) n [] refl

digits-nonempty : (fuel n c : ℕ) (behind : Text) → is_empty (digits fuel n (c ∷ behind)) ≡ false
digits-nonempty zero n c behind = refl
digits-nonempty (suc fuel) n c behind = elim (Bool-cases (ltb n 10)) [
  | inl k ↦ rw (digits_step fuel n (c ∷ behind)) (rw k refl)
  | inr k ↦
      rw (digits_step fuel n (c ∷ behind)) (rw k (digits-nonempty fuel (n / 10) _ (c ∷ behind)))
]

pub to_text-nonempty : (n : ℕ) → is_empty (to_text n) ≡ false
unfolding to_text
to_text-nonempty n = elim (Bool-cases (ltb n 10)) [
  | inl k ↦ rw (digits_step n n []) (rw k refl)
  | inr k ↦ rw (digits_step n n []) (rw k (digits-nonempty n (n / 10) _ []))
]

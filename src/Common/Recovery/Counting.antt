-- ===== src/Common/Recovery/Counting.antt =====
-- The callbacks in flight, counted by the generation that they captured.
use apple_protocols.Prelude.{
  ℕ, ◌+◌, ◌≤◌, List, [], ◌∷◌, Option, none, some, Bool, true, false, ◌==◌, All, ◌≡◌, refl, arith,
  inl, inr, Bool-cases,
}
use apple_protocols.Common.Recovery.{take_out, put_back}

abbrev pub one_if : Bool → ℕ
one_if true = 1
one_if false = 0

-- How often a generation stands in a list.
abbrev pub count : ℕ → List ℕ → ℕ
count g [] = 0
count g (h ∷ hs) = one_if (h == g) + count g hs

abbrev pub UpTo : ℕ → List ℕ → Type 0
UpTo bound hs = All (λ h. h ≤ bound) hs

-- No callback has captured a generation that is still to come.
pub count-next : (bound : ℕ) (hs : List ℕ) → UpTo bound hs → count (bound + 1) hs ≡ 0
count-next bound [] h = refl
count-next bound (g ∷ hs) (le, h) = ground (arith, count-next bound hs h)

pub UpTo-next : (bound : ℕ) (hs : List ℕ) → UpTo bound hs → UpTo (bound + 1) hs
UpTo-next bound [] h = tt
UpTo-next bound (g ∷ hs) (le, h) = (omega arith, UpTo-next bound hs h)

put_back-eq_some :
    (g : ℕ) (o : Option (List ℕ)) (ys : List ℕ)
    → put_back g o ≡ some ys
    → (zs : List ℕ) × (o ≡ some zs) × (ys ≡ g ∷ zs)
put_back-eq_some g none ys e = cc
put_back-eq_some g (some zs) ys e = (zs, refl, cc)

pub count-take_out :
    (g k : ℕ) (hs ys : List ℕ) → take_out g hs ≡ some ys → count k hs ≡ one_if (g == k) + count k ys
unfolding take_out
count-take_out g k [] ys e = cc
count-take_out g k (h ∷ hs) ys e = elim (Bool-cases (h == g)) [
  | inl same ↦ ground arith
  | inr other ↦
      let (zs, e₁, e₂) = put_back-eq_some h (take_out g hs) ys (rw other at e) in
      ground (arith, count-take_out g k hs zs e₁)
]

pub UpTo-take_out :
    (bound g : ℕ) (hs ys : List ℕ) → take_out g hs ≡ some ys → UpTo bound hs → UpTo bound ys
unfolding take_out
UpTo-take_out bound g [] ys e h = cc
UpTo-take_out bound g (h ∷ hs) ys e (le, u) = elim (Bool-cases (h == g)) [
  | inl same ↦ let q : hs ≡ ys = ground arith in rw (← q) u
  | inr other ↦
      let (zs, e₁, e₂) = put_back-eq_some h (take_out g hs) ys (rw other at e) in
      rw e₂ (le, UpTo-take_out bound g hs zs e₁ u)
]

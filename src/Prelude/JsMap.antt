-- ===== src/Prelude/JsMap.antt =====
-- A JavaScript `Map` with numbers for keys: its entries in the order of insertion. Writing a key
-- that is there keeps its place.
use Prim.Native.Nat.{ℕ, zero, suc}
use mathlib.Core.Path.{◌≡◌, refl, ap, ◌∙◌}
use mathlib.Core.Bool.{Bool, true, false}
use mathlib.Core.List.{List, [], ◌∷◌, ◌++◌}
use mathlib.Core.Option.{Option, none, some}
use native.Mathlib.Omega.{arith}
use apple_protocols.Prelude.Tests.{◌==◌, if◌then◌else◌}
use apple_protocols.Prelude.Lists.{length, drop}

abbrev pub JsMap {ℓ} : Type ℓ → Type ℓ
JsMap V = List (ℕ × V)

module _ {ℓ} {V : Type ℓ} where
  abbrev pub get : JsMap V → ℕ → Option V
  get [] k = none
  get ((j, v) ∷ m) k = if j == k then some v else get m k

  abbrev pub has : JsMap V → ℕ → Bool
  has [] k = false
  has ((j, v) ∷ m) k = if j == k then true else has m k

  abbrev pub set : JsMap V → ℕ → V → JsMap V
  set [] k v = (k, v) ∷ []
  set ((j, w) ∷ m) k v = if j == k then (j, v) ∷ m else (j, w) ∷ set m k v

  abbrev pub delete : JsMap V → ℕ → JsMap V
  delete [] k = []
  delete ((j, v) ∷ m) k = if j == k then m else (j, v) ∷ delete m k

  abbrev pub keys : JsMap V → List ℕ
  keys [] = []
  keys ((j, v) ∷ m) = j ∷ keys m

module _ {ℓ} {V : Type ℓ} where
  pub get-set :
      (m : JsMap V) (k j : ℕ) (v : V) → get (set m k v) j ≡ (if k == j then some v else get m j)
  get-set [] k j v = refl
  get-set ((i, w) ∷ m) k j v = ground (arith, get-set m k j v)

  pub set-set : (m : JsMap V) (k : ℕ) (v w : V) → set (set m k v) k w ≡ set m k w
  set-set [] k v w = ground arith
  set-set ((i, u) ∷ m) k v w = ground (arith, set-set m k v w)

  -- Writing a key that is not there adds it at the end.
  pub set-fresh : (m : JsMap V) (k : ℕ) (v : V) → has m k ≡ false → set m k v ≡ m ++ ((k, v) ∷ [])
  set-fresh [] k v h = refl
  set-fresh ((i, u) ∷ m) k v h = ground (arith, set-fresh m k v)

  pub get-has-false : (m : JsMap V) (k : ℕ) → has m k ≡ false → get m k ≡ none
  get-has-false [] k h = refl
  get-has-false ((i, u) ∷ m) k h = ground (arith, get-has-false m k)

  pub keys-append : (m n : JsMap V) → keys (m ++ n) ≡ keys m ++ keys n
  keys-append [] n = refl
  keys-append ((i, u) ∷ m) n = rw (keys-append m n)

  pub has-append : (m n : JsMap V) (k : ℕ) → has (m ++ n) k ≡ (if has m k then true else has n k)
  has-append [] n k = refl
  has-append ((i, u) ∷ m) n k = ground (arith, has-append m n k)

  -- No key twice, as in every map of the language.
  abbrev pub IsDistinct : JsMap V → Type 0
  IsDistinct [] = Unit {0}
  IsDistinct ((j, v) ∷ m) = (has m j ≡ false) × IsDistinct m

module _ {ℓ} {V : Type ℓ} where
  pub IsDistinct-append :
      (m : JsMap V) (k : ℕ) (v : V)
      → IsDistinct m
      → has m k ≡ false
      → IsDistinct (m ++ ((k, v) ∷ []))
  IsDistinct-append [] k v d h = (refl, tt)
  IsDistinct-append ((j, w) ∷ m) k v (f, d) h =
      (has-append m ((k, v) ∷ []) j ∙ ground arith, IsDistinct-append m k v d (ground arith))

  pub has-drop : (n : ℕ) (m : JsMap V) (k : ℕ) → has m k ≡ false → has (drop n m) k ≡ false
  has-drop zero m k h = h
  has-drop (suc n) [] k h = refl
  has-drop (suc n) ((j, w) ∷ m) k h = has-drop n m k (ground arith)

  pub IsDistinct-drop : (n : ℕ) (m : JsMap V) → IsDistinct m → IsDistinct (drop n m)
  IsDistinct-drop zero m d = d
  IsDistinct-drop (suc n) [] d = tt
  IsDistinct-drop (suc n) ((j, w) ∷ m) (f, d) = IsDistinct-drop n m d

  pub length-keys : (m : JsMap V) → length (keys m) ≡ length m
  length-keys [] = refl
  length-keys ((j, w) ∷ m) = ap suc (length-keys m)

  pub keys-drop : (n : ℕ) (m : JsMap V) → keys (drop n m) ≡ drop n (keys m)
  keys-drop zero m = refl
  keys-drop (suc n) [] = refl
  keys-drop (suc n) ((j, w) ∷ m) = keys-drop n m

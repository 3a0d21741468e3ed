-- ===== src/Base/Weights.antt =====
-- Sums over lists, and properties of every item.
use Prim.Native.Nat.{ℕ, zero, suc, ◌+◌}
use mathlib.Core.Path.{◌≡◌, refl, subst}
use mathlib.Core.List.{List, [], ◌∷◌, ◌++◌}
use mathlib.Core.Option.{some, some-injective}
use native.Mathlib.Omega.{arith}
use aeron_fast.Base.Lists.{get_elem?, set, replicate}

-- The sum of the weights of the items.
module _ {ℓ} {A : Type ℓ} where
  abbrev pub weigh : (A → ℕ) → List A → ℕ
  weigh w [] = 0
  weigh w (x ∷ xs) = w x + weigh w xs

  pub weigh-snoc : (w : A → ℕ) (xs : List A) (x : A) → weigh w (xs ++ x ∷ []) ≡ weigh w xs + w x
  weigh-snoc w [] x = omega arith
  weigh-snoc w (y ∷ xs) x = omega (arith, weigh-snoc w xs x)

  pub weigh-set :
      (w : A → ℕ) (xs : List A) (i : ℕ) (x x' : A)
      → get_elem? xs i ≡ some x
      → weigh w (set xs i x') + w x ≡ weigh w xs + w x'
  weigh-set w [] i x x' e = cc
  weigh-set w (y ∷ xs) zero x x' e = ground (arith, e)
  weigh-set w (y ∷ xs) (suc i) x x' e = omega (arith, weigh-set w xs i x x' e)

  pub weigh-replicate : (w : A → ℕ) (n : ℕ) (x : A) → w x ≡ 0 → weigh w (replicate n x) ≡ 0
  weigh-replicate w zero x e = refl
  weigh-replicate w (suc n) x e = omega (arith, weigh-replicate w n x e)

-- Every item has the property.
module _ {ℓ κ} {A : Type ℓ} where
  abbrev pub All : (A → Type κ) → List A → Type κ
  All P [] = Unit
  All P (x ∷ xs) = P x × All P xs

  pub All-get_elem? :
      (P : A → Type κ) (xs : List A) (i : ℕ) (x : A) → get_elem? xs i ≡ some x → All P xs → P x
  All-get_elem? P [] i x e h = absurd (cc)
  All-get_elem? P (y ∷ xs) zero x e h = subst P (some-injective _ _ e) h.0
  All-get_elem? P (y ∷ xs) (suc i) x e h = All-get_elem? P xs i x e h.1

  pub All-set : (P : A → Type κ) (xs : List A) (i : ℕ) (x : A) → P x → All P xs → All P (set xs i x)
  All-set P [] i x p h = tt
  All-set P (y ∷ xs) zero x p h = (p, h.1)
  All-set P (y ∷ xs) (suc i) x p h = (h.0, All-set P xs i x p h.1)

  pub All-replicate : (P : A → Type κ) (n : ℕ) (x : A) → P x → All P (replicate n x)
  All-replicate P zero x p = tt
  All-replicate P (suc n) x p = (p, All-replicate P n x p)

  pub All-map : (P Q : A → Type κ) (xs : List A) → ((x : A) → P x → Q x) → All P xs → All Q xs
  All-map P Q [] f h = tt
  All-map P Q (x ∷ xs) f h = (f x h.0, All-map P Q xs f h.1)

-- ===== src/Base/Elements.antt =====
-- What stands at an index of a list after writes and appends.
use Prim.Native.Nat.{ℕ, zero, suc, ◌≤◌, ◌<◌}
use mathlib.Core.Path.{◌≡◌, refl, sym, ap, ap₂, ◌∙◌}
use mathlib.Core.Logic.{◌≢◌, ◌⊎◌, inl, inr}
use mathlib.Core.List.{List, map, [], ◌∷◌, ◌++◌}
use mathlib.Core.Option.{none, some, some-injective}
use native.Mathlib.Omega.{arith}
use aeron_fast.Base.Lists.{length, get_elem?, get_or, set, take}

module _ {ℓ} {A : Type ℓ} where
  -- What stands in a list after a write.
  pub get_elem?-set_cases :
      (xs : List A) (i j : ℕ) (v x : A)
      → get_elem? (set xs i v) j ≡ some x
      → (v ≡ x) ⊎ (get_elem? xs j ≡ some x)
  get_elem?-set_cases [] i j v x e = inr e
  get_elem?-set_cases (y ∷ xs) zero zero v x e = inl (some-injective _ _ e)
  get_elem?-set_cases (y ∷ xs) zero (suc j) v x e = inr e
  get_elem?-set_cases (y ∷ xs) (suc i) zero v x e = inr e
  get_elem?-set_cases (y ∷ xs) (suc i) (suc j) v x e = get_elem?-set_cases xs i j v x e

  -- What a write leaves, or replaces.
  pub get_elem?-set_keeps :
      (xs : List A) (i j : ℕ) (v x y : A)
      → get_elem? xs j ≡ some x
      → get_elem? xs i ≡ some y
      → (get_elem? (set xs i v) j ≡ some x) ⊎ (y ≡ x)
  get_elem?-set_keeps [] i j v x y e f = inl e
  get_elem?-set_keeps (z ∷ xs) zero zero v x y e f = inr (some-injective _ _ (sym f ∙ e))
  get_elem?-set_keeps (z ∷ xs) zero (suc j) v x y e f = inl e
  get_elem?-set_keeps (z ∷ xs) (suc i) zero v x y e f = inl e
  get_elem?-set_keeps (z ∷ xs) (suc i) (suc j) v x y e f = get_elem?-set_keeps xs i j v x y e f

  pub get_elem?-append_left :
      (xs ys : List A) (i : ℕ) → i < length xs → get_elem? (xs ++ ys) i ≡ get_elem? xs i
  get_elem?-append_left [] ys i p = absurd (omega arith)
  get_elem?-append_left (x ∷ xs) ys zero p = refl
  get_elem?-append_left (x ∷ xs) ys (suc i) p = get_elem?-append_left xs ys i (omega arith)

  pub none-get_elem? : {x : A} → none ≡ some x → ⊥
  none-get_elem? e = cc

  pub get_or-get_elem? :
      (xs : List A) (i : ℕ) (x d : A) → get_elem? xs i ≡ some x → get_or xs i d ≡ x
  get_or-get_elem? [] i x d e = absurd (none-get_elem? e)
  get_or-get_elem? (y ∷ xs) zero x d e = some-injective _ _ e
  get_or-get_elem? (y ∷ xs) (suc i) x d e = get_or-get_elem? xs i x d e

  pub lt-get_elem? : (xs : List A) (i : ℕ) (x : A) → get_elem? xs i ≡ some x → i < length xs
  lt-get_elem? [] i x e = absurd (none-get_elem? e)
  lt-get_elem? (y ∷ xs) zero x e = omega arith
  lt-get_elem? (y ∷ xs) (suc i) x e = omega (arith, lt-get_elem? xs i x e)

  pub get_elem?-set_same :
      (xs : List A) (i : ℕ) (v : A) → i < length xs → get_elem? (set xs i v) i ≡ some v
  get_elem?-set_same [] i v p = absurd (omega arith)
  get_elem?-set_same (x ∷ xs) zero v p = refl
  get_elem?-set_same (x ∷ xs) (suc i) v p = get_elem?-set_same xs i v (omega arith)

  pub get_elem?-set_other :
      (xs : List A) (i j : ℕ) (v : A) → i ≢ j → get_elem? (set xs i v) j ≡ get_elem? xs j
  get_elem?-set_other [] i j v p = refl
  get_elem?-set_other (x ∷ xs) zero zero v p = absurd (p refl)
  get_elem?-set_other (x ∷ xs) zero (suc j) v p = refl
  get_elem?-set_other (x ∷ xs) (suc i) zero v p = refl
  get_elem?-set_other (x ∷ xs) (suc i) (suc j) v p =
      get_elem?-set_other xs i j v (λ e. p (ap suc e))

  -- Lists that agree on the places of the shorter one.
  pub take-eq :
      (xs ys : List A)
      → length ys ≤ length xs
      → ((i : ℕ) → i < length ys → get_elem? xs i ≡ get_elem? ys i)
      → take (length ys) xs ≡ ys
  take-eq xs [] p same = refl
  take-eq [] (y ∷ ys) p same = absurd (omega arith)
  take-eq (x ∷ xs) (y ∷ ys) p same =
      ap₂ ◌∷◌ (some-injective _ _ (same 0 (omega arith)))
        (take-eq xs ys (omega arith) (λ i q. same (suc i) (omega arith)))

  pub set-set : (xs : List A) (i : ℕ) (a b : A) → set (set xs i a) i b ≡ set xs i b
  set-set [] i a b = refl
  set-set (x ∷ xs) zero a b = refl
  set-set (x ∷ xs) (suc i) a b = ap (λ (l : List A). x ∷ l) (set-set xs i a b)

  pub set_self : (xs : List A) (i : ℕ) (a : A) → get_elem? xs i ≡ some a → set xs i a ≡ xs
  set_self [] i a e = refl
  set_self (x ∷ xs) zero a e = ap (λ (y : A). y ∷ xs) (sym (some-injective _ _ e))
  set_self (x ∷ xs) (suc i) a e = ap (λ (l : List A). x ∷ l) (set_self xs i a e)

module _ {ℓ κ} {A : Type ℓ} {B : Type κ} (f : A → B) where
  pub length-map : (xs : List A) → length (map f xs) ≡ length xs
  length-map [] = refl
  length-map (x ∷ xs) = ap suc (length-map xs)

  pub get_elem?-map :
      (xs : List A) (i : ℕ) (x : A) → get_elem? xs i ≡ some x → get_elem? (map f xs) i ≡ some (f x)
  get_elem?-map [] i x e = absurd (none-get_elem? e)
  get_elem?-map (y ∷ xs) zero x e = ap (λ z. some (f z)) (some-injective _ _ e)
  get_elem?-map (y ∷ xs) (suc i) x e = get_elem?-map xs i x e

  pub map-snoc : (xs : List A) (x : A) → map f (xs ++ x ∷ []) ≡ map f xs ++ f x ∷ []
  map-snoc [] x = refl
  map-snoc (y ∷ xs) x = ap (λ (l : List B). f y ∷ l) (map-snoc xs x)

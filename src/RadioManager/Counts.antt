-- ===== src/RadioManager/Counts.antt =====
-- Tasks counted, one of them replaced (for radio-io/src/radio_manager/lifecycle.rs).
use log.Base.{
  ℕ, zero, suc, ◌+◌, ◌≤◌, ◌≡◌, ap, refl, Bool, true, false, none, some, List, [], ◌∷◌, map, set,
  get_elem?, arith, subst, unwrap_or, Bool-cases, ◌⊎◌, inl, inr, if◌then◌else◌,
}
use log.Base.Position.{count_if}

abbrev pub one_if : Bool → ℕ
one_if true = 1
one_if false = 0

pub same {ℓ} : {A : Type ℓ} (z x : A) → some z ≡ some x → z ≡ x
same z x e = ap (λ o. unwrap_or o z) e

module _ {ℓ} {A : Type ℓ} (p : A → Bool) where
  pub count_if-set :
      (xs : List A) (i : ℕ) (x y : A)
      → get_elem? xs i ≡ some x
      → count_if p (set xs i y) + one_if (p x) ≡ count_if p xs + one_if (p y)
  count_if-set [] i x y e = ground arith
  count_if-set (z ∷ xs) zero x y e =
      subst (λ w. count_if p (y ∷ xs) + one_if (p w) ≡ count_if p (z ∷ xs) + one_if (p y))
        (same z x e) (both (p z) (p y) (count_if p xs))
    where
      both :
          (b c : Bool) (n : ℕ)
          → (if c then suc n else n) + one_if b ≡ (if b then suc n else n) + one_if c
      both true true n = omega arith
      both true false n = omega arith
      both false true n = omega arith
      both false false n = omega arith
  count_if-set (z ∷ xs) (suc i) x y e = more (p z) _ _ _ _ (count_if-set xs i x y e)
    where
      more :
          (b : Bool) (m n k l : ℕ)
          → m + k ≡ n + l
          → (if b then suc m else m) + k ≡ (if b then suc n else n) + l
      more true m n k l h = omega arith
      more false m n k l h = h

  pub count_if-le :
      (xs : List A) (i : ℕ) (x : A) → get_elem? xs i ≡ some x → one_if (p x) ≤ count_if p xs
  count_if-le [] i x e = ground arith
  count_if-le (z ∷ xs) zero x e =
      subst (λ w. one_if (p w) ≤ count_if p (z ∷ xs)) (same z x e) (least (p z) (count_if p xs))
    where
      least : (b : Bool) (n : ℕ) → one_if b ≤ (if b then suc n else n)
      least true n = omega arith
      least false n = omega arith
  count_if-le (z ∷ xs) (suc i) x e = more (p z) (count_if-le xs i x e)
    where
      more : (b : Bool) {k n : ℕ} → k ≤ n → k ≤ (if b then suc n else n)
      more true h = omega arith
      more false h = h

  pub count_if-map :
      (f : A → A)
      → ((x : A) → p (f x) ≡ p x)
      → (xs : List A) → count_if p (map f xs) ≡ count_if p xs
  count_if-map f h [] = refl
  count_if-map f h (x ∷ xs) = rw (h x, count_if-map f h xs) refl

pub get_elem?-map {ℓ} :
    {A : Type ℓ} (f : A → A) (xs : List A) (i : ℕ) (x : A)
    → get_elem? xs i ≡ some x
    → get_elem? (map f xs) i ≡ some (f x)
get_elem?-map f [] i x e = ground arith
get_elem?-map f (z ∷ xs) zero x e = ap (λ o. elim o [ none ↦ none | some w ↦ some (f w) ]) e
get_elem?-map f (z ∷ xs) (suc i) x e = get_elem?-map f xs i x e

pub get_elem?-set {ℓ} :
    {A : Type ℓ} (xs : List A) (i : ℕ) (x y : A)
    → get_elem? xs i ≡ some x
    → get_elem? (set xs i y) i ≡ some y
get_elem?-set [] i x y e = ground arith
get_elem?-set (z ∷ xs) zero x y e = refl
get_elem?-set (z ∷ xs) (suc i) x y e = get_elem?-set xs i x y e

-- Another element than the one that is replaced stays; the same one is replaced.
pub get_elem?-set_other {ℓ} :
    {A : Type ℓ} (xs : List A) (i j : ℕ) (x y : A)
    → get_elem? xs i ≡ some x
    → (get_elem? (set xs j y) i ≡ some x) ⊎ (i ≡ j)
get_elem?-set_other [] i j x y e = ground arith
get_elem?-set_other (z ∷ xs) zero zero x y e = inr refl
get_elem?-set_other (z ∷ xs) zero (suc j) x y e = inl e
get_elem?-set_other (z ∷ xs) (suc i) zero x y e = inl e
get_elem?-set_other (z ∷ xs) (suc i) (suc j) x y e = elim (get_elem?-set_other xs i j x y e) [
  | inl k ↦ inl k
  | inr k ↦ inr (ap suc k)
]

pub count_if-found {ℓ} :
    {A : Type ℓ} (p : A → Bool) (xs : List A)
    → 1 ≤ count_if p xs
    → (i : ℕ) × (x : A) × (get_elem? xs i ≡ some x) × (p x ≡ true)
count_if-found p [] h = ground arith
count_if-found p (z ∷ xs) h = elim (Bool-cases (p z)) [
  | inl e ↦ (0, z, refl, e)
  | inr e ↦
      let k : 1 ≤ count_if p xs = rw e at h in
      let found = count_if-found p xs k in (suc found.0, found.1, found.2, found.3)
]

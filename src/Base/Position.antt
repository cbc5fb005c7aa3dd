-- ===== src/Base/Position.antt =====
-- Where an element stands in a list, and how many fit a test.
use Prim.Native.Nat.{ℕ, zero, suc, ◌+◌}
use mathlib.Core.Path.{◌≡◌, refl}
use mathlib.Core.Logic.{inl, inr}
use mathlib.Core.Bool.{Bool}
use mathlib.Core.List.{List, [], ◌∷◌, ◌++◌}
use mathlib.Core.Option.{Option, none, some}
use native.Mathlib.Omega.{arith}
use log.Base.Tests.{if◌then◌else◌, Bool-cases}
use log.Base.Lists.{◌>>=◌, or_else, length, take, drop, position}

-- An index that counts from another start.
abbrev pub shift : ℕ → Option ℕ → Option ℕ
shift n none = none
shift n (some i) = some (n + i)

pub shift-suc : (n : ℕ) (o : Option ℕ) → shift n (o >>= λ i. some (suc i)) ≡ shift (suc n) o
shift-suc n none = refl
shift-suc n (some i) = ground arith

pub shift_zero : (o : Option ℕ) → shift 0 o ≡ o
shift_zero none = refl
shift_zero (some i) = ground arith

module _ {ℓ} {A : Type ℓ} (p : A → Bool) where
  abbrev pub count_if : List A → ℕ
  count_if [] = 0
  count_if (x ∷ xs) = let rest = count_if xs in if p x then suc rest else rest

  pub count_if-append : (xs ys : List A) → count_if (xs ++ ys) ≡ count_if xs + count_if ys
  count_if-append [] ys = omega arith
  count_if-append (x ∷ xs) ys = elim (Bool-cases (p x)) [
    | inl e ↦ rw e (omega (arith, count_if-append xs ys))
    | inr e ↦ rw e (count_if-append xs ys)
  ]

  pub count_if-take-drop :
      (n : ℕ) (xs : List A) → count_if (take n xs) + count_if (drop n xs) ≡ count_if xs
  count_if-take-drop zero xs = omega arith
  count_if-take-drop (suc n) [] = refl
  count_if-take-drop (suc n) (x ∷ xs) = elim (Bool-cases (p x)) [
    | inl e ↦ rw e (omega (arith, count_if-take-drop n xs))
    | inr e ↦ rw e (count_if-take-drop n xs)
  ]

  pub position-none : (xs : List A) → count_if xs ≡ 0 → position p xs ≡ none
  position-none [] h = refl
  position-none (x ∷ xs) h = elim (Bool-cases (p x)) [
    | inl e ↦ absurd (let k : suc (count_if xs) ≡ 0 = rw e at h in ground arith)
    | inr e ↦ let k : count_if xs ≡ 0 = rw e at h in rw (e, position-none xs k) refl
  ]

  pub count_none : (xs : List A) → position p xs ≡ none → count_if xs ≡ 0
  count_none [] h = refl
  count_none (x ∷ xs) h = elim (Bool-cases (p x)) [
    | inl e ↦ absurd (let k : some 0 ≡ none = rw e at h in ground arith)
    | inr e ↦ rw e (count_none xs (not_later (position p xs) (let k = rw e at h in k)))
  ]
    where
      not_later : (o : Option ℕ) → (o >>= λ n. some (suc n)) ≡ none → o ≡ none
      not_later none k = refl
      not_later (some i) k = ground arith

  pub position-append :
      (xs ys : List A)
      → position p (xs ++ ys) ≡ or_else (position p xs) (shift (length xs) (position p ys))
  position-append [] ys = rw shift_zero refl
  position-append (x ∷ xs) ys = elim (Bool-cases (p x)) [
    | inl e ↦ rw e refl
    | inr e ↦ rw (e, position-append xs ys) (later (position p xs) (position p ys))
  ]
    where
      later :
          (a b : Option ℕ)
          → (or_else a (shift (length xs) b) >>= λ n. some (suc n))
            ≡ or_else (a >>= λ n. some (suc n)) (shift (suc (length xs)) b)
      later none none = refl
      later none (some i) = ground arith
      later (some i) b = refl

-- A list is what is taken of it and what is dropped.
pub take-drop {ℓ} : {A : Type ℓ} (n : ℕ) (xs : List A) → take n xs ++ drop n xs ≡ xs
take-drop zero xs = refl
take-drop (suc n) [] = refl
take-drop (suc n) (x ∷ xs) = cc (take-drop n xs)

-- ===== src/Base/Int.antt =====
-- Signed integers over the native numbers, and the two's complement wrap of `i64`.
use Prim.Native.Nat.{ℕ, suc, ◌+◌, ◌-◌, ◌*◌, ◌/◌, ◌%◌, ◌^◌, ◌<◌}
use mathlib.Core.Path.{◌≡◌}
use mathlib.Core.Logic.{◌↔◌, inl, inr}
use mathlib.Core.Bool.{Bool, true, false}
use mathlib.Core.List.{List, [], ◌∷◌}
use native.Mathlib.Omega.{arith}
use log.Base.Tests.{ltb, leb, ◌==◌, if◌then◌else◌, ltb→lt, Bool-cases}

-- `negsuc n` is -(n + 1).
pub data ℤ : Type 0 where
  pos : ℕ → ℤ
  negsuc : ℕ → ℤ

abbrev pub pos_part : ℤ → ℕ
pos_part (pos n) = n
pos_part (negsuc n) = 0

abbrev pub neg_part : ℤ → ℕ
neg_part (pos n) = 0
neg_part (negsuc n) = suc n

-- a - b, as an integer.
abbrev pub sub_ℕ : ℕ → ℕ → ℤ
sub_ℕ a b = if leb b a then pos (a - b) else negsuc (b - a - 1)

infixl 65 ◌+ℤ◌ ◌-ℤ◌
infixl 70 ◌*ℤ◌
unfoldable pub ◌+ℤ◌ : ℤ → ℤ → ℤ
pos a +ℤ pos b = pos (a + b)
pos a +ℤ negsuc b = sub_ℕ a (suc b)
negsuc a +ℤ pos b = sub_ℕ b (suc a)
negsuc a +ℤ negsuc b = negsuc (suc (a + b))

unfoldable pub ◌-ℤ◌ : ℤ → ℤ → ℤ
pos a -ℤ pos b = sub_ℕ a b
pos a -ℤ negsuc b = pos (a + suc b)
negsuc a -ℤ pos b = negsuc (a + b)
negsuc a -ℤ negsuc b = sub_ℕ (suc b) (suc a)

unfoldable pub ◌*ℤ◌ : ℤ → ℤ → ℤ
pos a *ℤ pos b = pos (a * b)
pos a *ℤ negsuc b = sub_ℕ 0 (a * suc b)
negsuc a *ℤ pos b = sub_ℕ 0 (suc a * b)
negsuc a *ℤ negsuc b = pos (suc a * suc b)

-- Rust's `/` by a positive constant truncates towards zero.
unfoldable pub quot : ℤ → ℕ → ℤ
quot (pos a) k = pos (a / k)
quot (negsuc a) k = sub_ℕ 0 (suc a / k)

abbrev pub leb_ℤ : ℤ → ℤ → Bool
leb_ℤ (pos a) (pos b) = leb a b
leb_ℤ (pos a) (negsuc b) = false
leb_ℤ (negsuc a) (pos b) = true
leb_ℤ (negsuc a) (negsuc b) = leb b a

abbrev pub eq_ℤ : ℤ → ℤ → Bool
eq_ℤ (pos a) (pos b) = a == b
eq_ℤ (pos a) (negsuc b) = false
eq_ℤ (negsuc a) (pos b) = false
eq_ℤ (negsuc a) (negsuc b) = a == b

pub eq_ℤ_iff : (a b : ℤ) → (eq_ℤ a b ≡ true) ↔ (a ≡ b)
eq_ℤ_iff a b = ground arith

-- Ord::max.
abbrev pub max_ℤ : ℤ → ℤ → ℤ
max_ℤ a b = if leb_ℤ a b then b else a

-- The integer that stands for `z` among the w-bit two's complement integers, `half` being 2^(w-1).
abbrev pub wrap_at : ℕ → ℤ → ℤ
wrap_at half z =
    let r = (pos_part z + (half + half - neg_part z % (half + half))) % (half + half) in
    if ltb r half then pos r else negsuc (half + half - 1 - r)

abbrev pub half_i64 : ℕ
half_i64 = 2 ^ 63

-- `+`, `-` and `*` of `i64` as a release build computes them.
unfoldable pub add_i64 : ℤ → ℤ → ℤ
unfolding ◌+ℤ◌
add_i64 a b = wrap_at half_i64 (a +ℤ b)

unfoldable pub sub_i64 : ℤ → ℤ → ℤ
unfolding ◌-ℤ◌
sub_i64 a b = wrap_at half_i64 (a -ℤ b)

unfoldable pub mul_i64 : ℤ → ℤ → ℤ
unfolding ◌*ℤ◌
mul_i64 a b = wrap_at half_i64 (a *ℤ b)

-- `Iterator::sum` and `Iterator::product`.
unfoldable pub sum_i64 : ℤ → List ℤ → ℤ
unfolding add_i64
sum_i64 acc [] = acc
sum_i64 acc (x ∷ xs) = sum_i64 (add_i64 acc x) xs

unfoldable pub product_i64 : ℤ → List ℤ → ℤ
unfolding mul_i64
product_i64 acc [] = acc
product_i64 acc (x ∷ xs) = product_i64 (mul_i64 acc x) xs

-- The values of `i64`.
abbrev pub IsI64 : ℤ → Type 0
IsI64 (pos n) = n < half_i64
IsI64 (negsuc n) = n < half_i64

wrap_residue :
    (r : ℕ) → r < 2 ^ 64 → IsI64 (if ltb r half_i64 then pos r else negsuc (2 ^ 64 - 1 - r))
wrap_residue r h = elim (Bool-cases (ltb r half_i64)) [
  | inl e ↦ rw e (ltb→lt r half_i64 e)
  | inr e ↦ rw e (ground arith)
]

wrap_at-IsI64 : (z : ℤ) → IsI64 (wrap_at half_i64 z)
wrap_at-IsI64 z =
    wrap_residue ((pos_part z + (2 ^ 64 - neg_part z % 2 ^ 64)) % 2 ^ 64) (omega arith)

pub add_i64-IsI64 : (a b : ℤ) → IsI64 (add_i64 a b)
unfolding add_i64
add_i64-IsI64 a b = wrap_at-IsI64 (a +ℤ b)

pub add_i64-zero : (z : ℤ) → IsI64 z → add_i64 z (pos 0) ≡ z
unfolding add_i64
add_i64-zero (pos n) h = ground arith
add_i64-zero (negsuc n) h = ground arith

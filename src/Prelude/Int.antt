-- ===== src/Prelude/Int.antt =====
-- Signed integers over the native numbers, under the library's names.
use Prim.Native.Nat.{ℕ, suc, ◌+◌, ◌-◌, ◌≤◌, compare, Ordering}
use mathlib.Core.Path.{◌≡◌}
use native.Mathlib.Omega.{arith}
use aize.Prelude.Tests.{leb, if◌then◌else◌}
use aize.Prelude.Order.{Order, flip}

-- `negsuc n` is -(n + 1).
pub data ℤ : Type 0 where
  pos : ℕ → ℤ
  negsuc : ℕ → ℤ

abbrev pub pos_part : ℤ → ℕ
pos_part (pos n) = n
pos_part (negsuc n) = 0

abbrev pub neg_part : ℤ → ℕ
neg_part (pos n) = 0
neg_part (negsuc n) = suc n

-- a - b, as an integer.
abbrev pub sub_ℕ : ℕ → ℕ → ℤ
sub_ℕ a b = if leb b a then pos (a - b) else negsuc (b - a - 1)

infixl 65 ◌+ℤ◌
infix 50 ◌≤ℤ◌
unfoldable pub ◌+ℤ◌ : ℤ → ℤ → ℤ
a +ℤ b = sub_ℕ (pos_part a + pos_part b) (neg_part a + neg_part b)

abbrev pub ◌≤ℤ◌ : ℤ → ℤ → Type 0
a ≤ℤ b = pos_part a + neg_part b ≤ pos_part b + neg_part a

abbrev pub compare_ℤ : ℤ → ℤ → Ordering
compare_ℤ a b = compare (pos_part a + neg_part b) (pos_part b + neg_part a)

pub +ℤ_parts :
    (a b : ℤ)
    → pos_part (a +ℤ b) + neg_part a + neg_part b ≡ neg_part (a +ℤ b) + pos_part a + pos_part b
unfolding ◌+ℤ◌
+ℤ_parts a b = ground arith

pub ruleset int_laws = (arith, +ℤ_parts)

pub int_swap : (a b : ℤ) → compare_ℤ b a ≡ flip (compare_ℤ a b)
int_swap a b = ground arith

pub int_eq : (a b : ℤ) → compare_ℤ a b ≡ Ordering.eq → a ≡ b
int_eq a b h = ground arith

pub int_trans :
    (a b c : ℤ)
    → compare_ℤ a b ≡ Ordering.lt
    → compare_ℤ b c ≡ Ordering.lt
    → compare_ℤ a c ≡ Ordering.lt
int_trans a b c h k = ground arith

abbrev pub int_Order : Order ℤ
int_Order = record { cmp = compare_ℤ; cmp_swap = int_swap; cmp_eq = int_eq; cmp_trans = int_trans }

-- Largest first, as a key that Python negates.
pub int_desc_eq : (a b : ℤ) → compare_ℤ b a ≡ Ordering.eq → a ≡ b
int_desc_eq a b h = ground arith

abbrev pub int_desc_Order : Order ℤ
int_desc_Order = record {
  cmp = λ a b. compare_ℤ b a;
  cmp_swap = λ a b. int_swap b a;
  cmp_eq = int_desc_eq;
  cmp_trans = λ a b c h k. int_trans c b a k h;
}

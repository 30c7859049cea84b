-- ===== src/Base/Int.antt =====
-- Signed integers over the native numbers, and Go's int64 with its wrap-around.
use Prim.Native.Nat.{ℕ, suc, ◌+◌, ◌-◌, ◌*◌, ◌%◌, ◌≤◌, ◌<◌}
use mathlib.Core.Path.{◌≡◌, ap, ◌∙◌}
use mathlib.Core.Bool.{Bool, true}
use native.Mathlib.Omega.{arith}
use wechat_clone.Base.Tests.{ltb, leb, eqb, if◌then◌else◌}

-- `negsuc n` is -(n + 1).
pub data ℤ : Type 0 where
  pos : ℕ → ℤ
  negsuc : ℕ → ℤ

abbrev pub pos_part : ℤ → ℕ
pos_part (pos n) = n
pos_part (negsuc _) = 0

abbrev pub neg_part : ℤ → ℕ
neg_part (pos _) = 0
neg_part (negsuc n) = suc n

abbrev pub sub_ℕ : ℕ → ℕ → ℤ
sub_ℕ a b = if leb b a then pos (a - b) else negsuc (b - a - 1)

infixl 65 ◌+ℤ◌
infix 50 ◌≤ℤ◌
unfoldable pub ◌+ℤ◌ : ℤ → ℤ → ℤ
a +ℤ b = sub_ℕ (pos_part a + pos_part b) (neg_part a + neg_part b)

unfoldable pub neg_ℤ : ℤ → ℤ
neg_ℤ a = sub_ℕ (neg_part a) (pos_part a)

abbrev pub ◌≤ℤ◌ : ℤ → ℤ → Type 0
a ≤ℤ b = pos_part a + neg_part b ≤ pos_part b + neg_part a

abbrev pub ltb_ℤ : ℤ → ℤ → Bool
ltb_ℤ a b = ltb (pos_part a + neg_part b) (pos_part b + neg_part a)

abbrev pub leb_ℤ : ℤ → ℤ → Bool
leb_ℤ a b = leb (pos_part a + neg_part b) (pos_part b + neg_part a)

abbrev pub eqb_ℤ : ℤ → ℤ → Bool
eqb_ℤ a b = eqb (pos_part a + neg_part b) (pos_part b + neg_part a)

pub +ℤ_parts :
    (a b : ℤ)
    → pos_part (a +ℤ b) + neg_part a + neg_part b ≡ neg_part (a +ℤ b) + pos_part a + pos_part b
unfolding ◌+ℤ◌
+ℤ_parts a b = ground arith

pub neg_ℤ_parts : (a : ℤ) → pos_part (neg_ℤ a) + pos_part a ≡ neg_part (neg_ℤ a) + neg_part a
unfolding neg_ℤ
neg_ℤ_parts a = ground arith

pub eq_of_parts : (a b : ℤ) → pos_part a + neg_part b ≡ pos_part b + neg_part a → a ≡ b
eq_of_parts a b h = ground arith

pub ruleset int_laws = (arith, +ℤ_parts, neg_ℤ_parts, eq_of_parts)

-- 2^63 and 2^64.
abbrev pub half_word : ℕ
half_word = 9223372036854775808

abbrev pub word : ℕ
word = 18446744073709551616

-- The 64 bits of an integer, and the int64 that a bit pattern stands for.
abbrev pub to_bits : ℤ → ℕ
to_bits (pos n) = n % word
to_bits (negsuc n) = word - 1 - n % word

abbrev pub of_bits : ℕ → ℤ
of_bits m = if ltb m half_word then pos m else negsuc (word - 1 - m)

-- The int64 value of an integer: its residue modulo 2^64 in -2^63 .. 2^63 - 1.
unfoldable pub wrap64 : ℤ → ℤ
wrap64 z = of_bits (to_bits z)

abbrev pub IsInt64 : ℤ → Type 0
IsInt64 (pos n) = n < half_word
IsInt64 (negsuc n) = n < half_word

-- Go's `a + b`, `-a` and the product by a sign on int64.
unfoldable pub add64 : ℤ → ℤ → ℤ
add64 a b = wrap64 (a +ℤ b)

unfoldable pub neg64 : ℤ → ℤ
neg64 a = wrap64 (neg_ℤ a)

pub wrap64-IsInt64 : (z : ℤ) → IsInt64 (wrap64 z)
unfolding wrap64
wrap64-IsInt64 z = ground arith

pub wrap64_of_IsInt64 : (z : ℤ) → IsInt64 z → wrap64 z ≡ z
unfolding wrap64
wrap64_of_IsInt64 z h = ground arith

-- Wrapping an operand first does not change a wrapped sum.
pub wrap64-add_left : (a b : ℤ) → wrap64 (wrap64 a +ℤ b) ≡ wrap64 (a +ℤ b)
unfolding wrap64 ◌+ℤ◌
wrap64-add_left a b = ground arith

pub neg64_twice : (a : ℤ) → IsInt64 a → neg64 (neg64 a) ≡ a
unfolding neg64 wrap64 neg_ℤ
neg64_twice a h = ground arith

infixl 70 ◌*ℤ◌
unfoldable pub ◌*ℤ◌ : ℤ → ℤ → ℤ
a *ℤ b =
    sub_ℕ (pos_part a * pos_part b + neg_part a * neg_part b)
      (pos_part a * neg_part b + neg_part a * pos_part b)

unfoldable pub mul64 : ℤ → ℤ → ℤ
mul64 a b = wrap64 (a *ℤ b)

pub mul64-one : (a : ℤ) → IsInt64 a → mul64 (pos 1) a ≡ a
unfolding mul64 wrap64 ◌*ℤ◌
mul64-one a h = ground arith

pub mul64-minus_one : (a : ℤ) → mul64 (negsuc 0) a ≡ neg64 a
unfolding mul64 ◌*ℤ◌ neg64 neg_ℤ
mul64-minus_one a = ground arith

pub +ℤ_comm : (a b : ℤ) → a +ℤ b ≡ b +ℤ a
+ℤ_comm a b = omega int_laws

pub wrap64-add_both : (a b : ℤ) → wrap64 (wrap64 a +ℤ wrap64 b) ≡ wrap64 (a +ℤ b)
wrap64-add_both a b =
    wrap64-add_left a (wrap64 b)
    ∙ ap wrap64 (+ℤ_comm a (wrap64 b))
    ∙ wrap64-add_left b a
    ∙ ap wrap64 (+ℤ_comm b a)

-- A sum of two balances does not change when an amount moves from one to the other.
pub transfer_sum : (x y m : ℤ) → wrap64 (add64 x (neg64 m) +ℤ add64 y m) ≡ wrap64 (x +ℤ y)
unfolding add64 neg64
transfer_sum x y m =
    wrap64-add_both (x +ℤ wrap64 (neg_ℤ m)) (y +ℤ m)
    ∙ ap wrap64 (omega int_laws)
    ∙ wrap64-add_left (neg_ℤ m) (x +ℤ (y +ℤ m))
    ∙ ap wrap64 (omega int_laws)

pub neg64_negative : (m : ℤ) → IsInt64 m → pos 1 ≤ℤ m → ltb_ℤ (neg64 m) (pos 0) ≡ true
unfolding neg64 wrap64 neg_ℤ
neg64_negative m h p = ground arith

pub eqb_ℤ_refl : (a : ℤ) → eqb_ℤ a a ≡ true
eqb_ℤ_refl a = ground arith

-- ===== src/Prelude/Int.antt =====
-- Python's integers.
use Prim.Native.Nat.{ℕ, zero, suc, ◌+◌, ◌≤◌}
use mathlib.Core.Path.{◌≡◌}
use mathlib.Core.Bool.{Bool, true, false}
use native.Mathlib.Omega.{arith}
use qsmith.Prelude.Tests.{eqb, leb, ltb}

-- `negsuc n` is -(n + 1).
pub data ℤ : Type 0 where
  pos : ℕ → ℤ
  negsuc : ℕ → ℤ

abbrev pub eqb_ℤ : ℤ → ℤ → Bool
eqb_ℤ (pos m) (pos n) = eqb m n
eqb_ℤ (negsuc m) (negsuc n) = eqb m n
eqb_ℤ _ _ = false

abbrev pub pos_part : ℤ → ℕ
pos_part (pos n) = n
pos_part (negsuc n) = 0

abbrev pub neg_part : ℤ → ℕ
neg_part (pos n) = 0
neg_part (negsuc n) = suc n

-- An integer is the difference of its two parts, so an order is one of sums.
infix 50 ◌≤ℤ◌
abbrev pub ◌≤ℤ◌ : ℤ → ℤ → Type 0
a ≤ℤ b = pos_part a + neg_part b ≤ pos_part b + neg_part a

abbrev pub leb_ℤ : ℤ → ℤ → Bool
leb_ℤ a b = leb (pos_part a + neg_part b) (pos_part b + neg_part a)

abbrev pub ltb_ℤ : ℤ → ℤ → Bool
ltb_ℤ a b = ltb (pos_part a + neg_part b) (pos_part b + neg_part a)

-- `n + 1`
abbrev pub suc_ℤ : ℤ → ℤ
suc_ℤ (pos n) = pos (suc n)
suc_ℤ (negsuc zero) = pos 0
suc_ℤ (negsuc (suc n)) = negsuc n

-- Nothing lies between an integer and the next one.
pub ltb_ℤ-suc_ℤ : (a b : ℤ) → a ≤ℤ b → leb_ℤ (suc_ℤ b) a ≡ false
ltb_ℤ-suc_ℤ a (pos n) h = ground arith
ltb_ℤ-suc_ℤ a (negsuc zero) h = ground arith
ltb_ℤ-suc_ℤ a (negsuc (suc n)) h = ground arith

pub le-suc_ℤ : (a b : ℤ) → a ≤ℤ b → leb_ℤ a (suc_ℤ b) ≡ true
le-suc_ℤ a (pos n) h = ground arith
le-suc_ℤ a (negsuc zero) h = ground arith
le-suc_ℤ a (negsuc (suc n)) h = ground arith

pub le_of_eqb_ℤ : (a b : ℤ) → eqb_ℤ a b ≡ true → a ≤ℤ b
le_of_eqb_ℤ (pos m) (pos n) h = ground arith
le_of_eqb_ℤ (negsuc m) (negsuc n) h = ground arith
le_of_eqb_ℤ (pos m) (negsuc n) h = absurd (ground arith)
le_of_eqb_ℤ (negsuc m) (pos n) h = absurd (ground arith)

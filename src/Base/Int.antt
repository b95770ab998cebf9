-- ===== src/Base/Int.antt =====
-- Python's `int`: a sign and a magnitude over the native numbers, and its order as a test.
use Prim.Native.Nat.{ℕ, zero, suc}
use mathlib.Core.Path.{◌≡◌, refl}
use mathlib.Core.Bool.{Bool, true, false}
use mathlib.Core.Option.{Option, none, some}
use native.Mathlib.Omega.{arith}
use open_mdm.Base.Tests.{leb, eqb}

-- `negsuc n` is -(n + 1).
pub data ℤ : Type 0 where
  pos : ℕ → ℤ
  negsuc : ℕ → ℤ

-- `abs(z)`
abbrev pub abs : ℤ → ℕ
abs (pos n) = n
abs (negsuc n) = suc n

-- `a <= b`
abbrev pub le_int : ℤ → ℤ → Bool
le_int (pos m) (pos n) = leb m n
le_int (pos m) (negsuc n) = false
le_int (negsuc m) (pos n) = true
le_int (negsuc m) (negsuc n) = leb n m

abbrev pub is_zero_int : ℤ → Bool
is_zero_int (pos zero) = true
is_zero_int (pos (suc n)) = false
is_zero_int (negsuc n) = false

-- `z or None`: zero counts as missing.
abbrev pub nonzero : Option ℤ → Option ℤ
nonzero none = none
nonzero (some (pos zero)) = none
nonzero (some (pos (suc n))) = some (pos (suc n))
nonzero (some (negsuc n)) = some (negsuc n)

-- `z or 0`
abbrev pub or_zero : Option ℤ → ℤ
or_zero none = pos 0
or_zero (some z) = z

pub le_int_refl : (a : ℤ) → le_int a a ≡ true
le_int_refl (pos n) = ground arith
le_int_refl (negsuc n) = ground arith

pub le_int_trans : (a b c : ℤ) → le_int a b ≡ true → le_int b c ≡ true → le_int a c ≡ true
le_int_trans (pos a) (pos b) (pos c) h k = ground arith
le_int_trans (pos a) (pos b) (negsuc c) h k = cc
le_int_trans (pos a) (negsuc b) c h k = cc
le_int_trans (negsuc a) (pos b) (pos c) h k = refl
le_int_trans (negsuc a) (pos b) (negsuc c) h k = cc
le_int_trans (negsuc a) (negsuc b) (pos c) h k = refl
le_int_trans (negsuc a) (negsuc b) (negsuc c) h k = ground arith

-- `a == b`
abbrev pub eq_int : ℤ → ℤ → Bool
eq_int (pos m) (pos n) = eqb m n
eq_int (negsuc m) (negsuc n) = eqb m n
eq_int _ _ = false

pub eq_int_refl : (a : ℤ) → eq_int a a ≡ true
eq_int_refl (pos n) = ground arith
eq_int_refl (negsuc n) = ground arith

pub eq_int_sound : (a b : ℤ) → eq_int a b ≡ true → a ≡ b
eq_int_sound (pos m) (pos n) h = ground arith
eq_int_sound (negsuc m) (negsuc n) h = ground arith
eq_int_sound _ _ h = absurd (cc)

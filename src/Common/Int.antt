-- ===== src/Common/Int.antt =====
-- The integers, for times in milliseconds, which may lie before 1970. `negsuc n` is -(n + 1).
use Prim.Native.Nat.{ℕ}
use mathlib.Core.Path.{◌≡◌}
use mathlib.Core.Bool.{Bool, true, false}
use native.Mathlib.Omega.{arith}
use open_pm.Common.Tests.{leb}

pub data ℤ : Type 0 where
  pos : ℕ → ℤ
  negsuc : ℕ → ℤ

-- `a <= b`.
abbrev pub lez : ℤ → ℤ → Bool
lez (pos a) (pos b) = leb a b
lez (pos a) (negsuc b) = false
lez (negsuc a) (pos b) = true
lez (negsuc a) (negsuc b) = leb b a

pub lez_refl : (a : ℤ) → lez a a ≡ true
lez_refl (pos a) = ground arith
lez_refl (negsuc a) = ground arith

pub lez_trans : (a b c : ℤ) → lez a b ≡ true → lez b c ≡ true → lez a c ≡ true
lez_trans (pos a) (pos b) (pos c) h k = ground arith
lez_trans (negsuc a) (pos b) (pos c) h k = ground arith
lez_trans (negsuc a) (negsuc b) (pos c) h k = ground arith
lez_trans (negsuc a) (negsuc b) (negsuc c) h k = ground arith
lez_trans (pos a) (negsuc b) c h k = cc
lez_trans (pos a) (pos b) (negsuc c) h k = cc
lez_trans (negsuc a) (pos b) (negsuc c) h k = cc

pub lez_total : (a b : ℤ) → lez a b ≡ false → lez b a ≡ true
lez_total (pos a) (pos b) h = ground arith
lez_total (pos a) (negsuc b) h = ground arith
lez_total (negsuc a) (pos b) h = cc
lez_total (negsuc a) (negsuc b) h = ground arith

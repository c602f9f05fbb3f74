-- ===== src/Base/Int.antt =====
-- C `int` values that may be negative, over the native numbers, and the guards on them.
use Prim.Native.Nat.{ℕ, ◌-◌, ◌<◌}
use mathlib.Core.Path.{◌≡◌, refl}
use mathlib.Core.Bool.{Bool, true, false}
use native.Mathlib.Omega.{arith}
use usloss.Base.Tests.{leb, ◌==◌, if◌then◌else◌}

-- `negsuc n` is -(n + 1).
pub data ℤ : Type 0 where
  pos : ℕ → ℤ
  negsuc : ℕ → ℤ

-- The value -1 by which the source says "none".
abbrev pub minus_one : ℤ
minus_one = negsuc 0

-- `(x < 0) || (x >= bound)`
abbrev pub out_of_range : ℤ → ℕ → Bool
out_of_range (pos n) bound = leb bound n
out_of_range (negsuc _) _ = true

-- The index that a value in range stands for. It is used behind `out_of_range` only.
abbrev pub index : ℤ → ℕ
index (pos n) = n
index (negsuc _) = 0

abbrev pub eq_ℤ : ℤ → ℤ → Bool
eq_ℤ (pos m) (pos n) = m == n
eq_ℤ (pos _) (negsuc _) = false
eq_ℤ (negsuc _) (pos _) = false
eq_ℤ (negsuc m) (negsuc n) = m == n

-- a - b, as an integer.
abbrev pub sub_ℕ : ℕ → ℕ → ℤ
sub_ℕ a b = if leb b a then pos (a - b) else negsuc (b - a - 1)

-- What passes the guard is an index below the bound.
pub in_range :
    (x : ℤ) (bound : ℕ) → out_of_range x bound ≡ false → (x ≡ pos (index x)) × (index x < bound)
in_range (pos n) bound h = (refl, ground arith)
in_range (negsuc n) bound h = absurd (cc)

pub index-not_out : (n bound : ℕ) → n < bound → out_of_range (pos n) bound ≡ false
index-not_out n bound h = ground arith

pub eq_ℤ_eq : (x y : ℤ) → eq_ℤ x y ≡ true → x ≡ y
eq_ℤ_eq (pos m) (pos n) h = ground arith
eq_ℤ_eq (pos m) (negsuc n) h = absurd (cc)
eq_ℤ_eq (negsuc m) (pos n) h = absurd (cc)
eq_ℤ_eq (negsuc m) (negsuc n) h = ground arith

pub eq_ℤ_refl : (x : ℤ) → eq_ℤ x x ≡ true
eq_ℤ_refl (pos m) = ground arith
eq_ℤ_refl (negsuc m) = ground arith

pub pos_inj : {m n : ℕ} → pos m ≡ pos n → m ≡ n
pos_inj h = cc

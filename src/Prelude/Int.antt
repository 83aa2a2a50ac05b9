-- ===== src/Prelude/Int.antt =====
-- Integers: a count that may fall below zero.
use Prim.Native.Nat.{ℕ, zero, suc}
use mathlib.Core.Path.{◌≡◌, refl}
use mathlib.Core.Bool.{Bool, true, false}

-- `negsuc n` is -(n + 1).
pub data ℤ : Type 0 where
  pos : ℕ → ℤ
  negsuc : ℕ → ℤ

abbrev pub is_zero : ℤ → Bool
is_zero (pos zero) = true
is_zero (pos (suc n)) = false
is_zero (negsuc n) = false

unfoldable pub inc : ℤ → ℤ
inc (pos n) = pos (suc n)
inc (negsuc zero) = pos zero
inc (negsuc (suc n)) = negsuc n

unfoldable pub dec : ℤ → ℤ
dec (pos zero) = negsuc zero
dec (pos (suc n)) = pos n
dec (negsuc n) = negsuc (suc n)

-- n - k
unfoldable pub sub_ℕ : ℕ → ℕ → ℤ
sub_ℕ n zero = pos n
sub_ℕ zero (suc k) = negsuc k
sub_ℕ (suc n) (suc k) = sub_ℕ n k

pub inc-sub_ℕ : (n k : ℕ) → inc (sub_ℕ n k) ≡ sub_ℕ (suc n) k
unfolding inc sub_ℕ
inc-sub_ℕ n zero = refl
inc-sub_ℕ zero (suc zero) = refl
inc-sub_ℕ zero (suc (suc k)) = refl
inc-sub_ℕ (suc n) (suc k) = inc-sub_ℕ n k

pub dec-sub_ℕ : (n k : ℕ) → dec (sub_ℕ (suc n) k) ≡ sub_ℕ n k
unfolding dec sub_ℕ
dec-sub_ℕ n zero = refl
dec-sub_ℕ zero (suc zero) = refl
dec-sub_ℕ zero (suc (suc k)) = refl
dec-sub_ℕ (suc n) (suc k) = dec-sub_ℕ n k

-- ===== src/Prelude/Decimal.antt =====
-- Python's `str` of a number and `int` of decimal digits.
use Prim.Native.Nat.{ℕ, zero, suc, ◌+◌, ◌-◌, ◌*◌, ◌/◌, ◌%◌, ◌≤◌, ◌<◌}
use Prim.Native.Char.{code}
use Prim.Native.String.{String, [] as []ˢ, ◌∷◌ as ◌∷ˢ◌}
use mathlib.Core.Path.{◌≡◌, refl, ◌∙◌}
use mathlib.Core.Logic.{inl, inr}
use mathlib.Core.Bool.{Bool, true, false, ◌&&◌}
use native.Mathlib.Omega.{arith}
use dockb.Prelude.Tests.{if◌then◌else◌, eqb, Bool-cases}
use dockb.Prelude.Text.{between}

-- the digit in front of a text
unfoldable pub digit : ℕ → String → String
digit d s =
    if eqb d 0
    then "0" ∷ˢ s
    else if eqb d 1
    then "1" ∷ˢ s
    else if eqb d 2
    then "2" ∷ˢ s
    else if eqb d 3
    then "3" ∷ˢ s
    else if eqb d 4
    then "4" ∷ˢ s
    else if eqb d 5
    then "5" ∷ˢ s
    else if eqb d 6
    then "6" ∷ˢ s
    else if eqb d 7
    then "7" ∷ˢ s
    else if eqb d 8
    then "8" ∷ˢ s
    else "9" ∷ˢ s

unfoldable pub digits : ℕ → ℕ → String → String
unfolding digit
digits zero n out = out
digits (suc rounds) n out = elim (eqb n 0) [
  | true ↦ out
  | false ↦ digits rounds (n / 10) (digit (n % 10) out)
]

-- `str(n)`
unfoldable pub decimal : ℕ → String
unfolding digits digit
decimal n = if eqb n 0 then "0" else digits n n []ˢ

-- the number that the digits spell behind `n`
abbrev pub value : ℕ → String → ℕ
value n []ˢ = n
value n (c ∷ˢ s) = value (n * 10 + (code c - 48)) s

-- `int(text)` of a text of ASCII digits
abbrev pub number : String → ℕ
number s = value 0 s

abbrev pub all_chars : (ℕ → Bool) → String → Bool
all_chars p []ˢ = true
all_chars p (c ∷ˢ s) = p (code c) && all_chars p s

abbrev pub is_decimal : ℕ → Bool
is_decimal c = between 48 57 c

value-digit : (n d : ℕ) (s : String) → d < 10 → value n (digit d s) ≡ value (n * 10 + d) s
unfolding digit
value-digit n d s h = ground arith

value-digits : (rounds n : ℕ) (s : String) → n ≤ rounds → value 0 (digits rounds n s) ≡ value n s
unfolding digits
value-digits zero n s h = let none_left : n ≡ 0 = omega arith in rw none_left refl
value-digits (suc rounds) n s h = elim (Bool-cases (eqb n 0)) [
  | inl none_left ↦ let zero' : n ≡ 0 = ground arith in rw zero' refl
  | inr more ↦
      let positive : 0 < n = ground arith in
      let ih = value-digits rounds (n / 10) (digit (n % 10) s) (omega arith) in
      let back : n / 10 * 10 + n % 10 ≡ n = omega arith in
      let last = value-digit (n / 10) (n % 10) s (omega arith) in
      rw (digits, more) (ih ∙ rw back at last)
]

-- Reading a printed number back.
pub number-decimal : (n : ℕ) → number (decimal n) ≡ n
unfolding decimal
number-decimal n = elim (Bool-cases (eqb n 0)) [
  | inl none_left ↦ let zero' : n ≡ 0 = ground arith in rw zero' refl
  | inr more ↦ rw more (value-digits n n []ˢ (omega arith))
]

digit_decimal :
    (d : ℕ) (s : String) → all_chars is_decimal s ≡ true → all_chars is_decimal (digit d s) ≡ true
unfolding digit
digit_decimal d s h = ground arith

digits_decimal :
    (rounds n : ℕ) (s : String)
    → all_chars is_decimal s ≡ true
    → all_chars is_decimal (digits rounds n s) ≡ true
unfolding digits
digits_decimal zero n s h = h
digits_decimal (suc rounds) n s h = elim (Bool-cases (eqb n 0)) [
  | inl none_left ↦ rw (digits, none_left) h
  | inr more ↦
      rw (digits, more)
        (digits_decimal rounds (n / 10) (digit (n % 10) s) (digit_decimal (n % 10) s h))
]

pub decimal-decimal : (n : ℕ) → all_chars is_decimal (decimal n) ≡ true
unfolding decimal
decimal-decimal n = elim (Bool-cases (eqb n 0)) [
  | inl none_left ↦ rw none_left refl
  | inr more ↦ rw more (digits_decimal n n []ˢ refl)
]

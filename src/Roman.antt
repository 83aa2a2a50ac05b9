-- ===== src/Roman.antt =====
-- src/dockb/services/markdown_import.py: `_roman_to_int`. A pattern is a function from a text to what
-- is left after each of its matches, in the order in which the engine tries them. `upper` is Python's
-- `str.upper`.
pub mod Numerals
pub mod Accepted
mod Tests
use dockb.Prelude.{
  ℕ, zero, suc, ◌+◌, ◌-◌, String, Bool, Option, none, some, List, [], ◌∷◌, ◌++◌, ltb, eqb,
  if◌then◌else◌, any_of,
}
use Prim.Native.Char.{Char, code}
use Prim.Native.String.{[] as []ˢ, ◌∷◌ as ◌∷ˢ◌}
use dockb.Prelude.Text.{append, is_empty}

-- one character of a pattern
unfoldable pub eat : Char → String → Option String
eat c []ˢ = none
eat c (d ∷ˢ s) = if eqb (code c) (code d) then some s else none

-- `c{0,k}`
unfoldable pub up_to : Char → ℕ → String → List String
up_to c zero s = s ∷ []
up_to c (suc k) s = elim (eat c s) [ none ↦ s ∷ [] | some r ↦ up_to c k r ++ s ∷ [] ]

abbrev pub eat_next : Char → Option String → List String
eat_next c none = []
eat_next c (some s) = elim (eat c s) [ none ↦ [] | some r ↦ r ∷ [] ]

-- `v?i{0,3}`
unfoldable pub five_up : Char → Char → String → List String
unfolding eat up_to
five_up i v s = elim (eat v s) [ none ↦ up_to i 3 s | some r ↦ up_to i 3 r ++ up_to i 3 s ]

-- `(?:ix|iv|v?i{0,3})`
unfoldable pub one_digit : Char → Char → Char → String → List String
unfolding five_up
one_digit i v x s = eat_next x (eat i s) ++ (eat_next v (eat i s) ++ five_up i v s)

-- a pattern behind another
unfoldable pub followed_by : (String → List String) → List String → List String
followed_by p [] = []
followed_by p (s ∷ ss) = p s ++ followed_by p ss

-- `_ROMAN_RE.fullmatch(text)`
unfoldable pub is_roman : String → Bool
unfolding followed_by one_digit up_to
is_roman s = any_of is_empty (
    followed_by (one_digit "I" "V" "X")
      (followed_by (one_digit "X" "L" "C") (followed_by (one_digit "C" "D" "M") (up_to "M" 3 s))))

-- `_ROMAN_DIGITS`, at the letters that the pattern lets through
unfoldable pub roman_digit : Char → ℕ
roman_digit ch =
    let c = code ch in
    if eqb c b'I'
    then 1
    else if eqb c b'V'
    then 5
    else if eqb c b'X'
    then 10
    else if eqb c b'L'
    then 50
    else if eqb c b'C'
    then 100
    else if eqb c b'D'
    then 500
    else if eqb c b'M'
    then 1000
    else 0

-- The loop over the reversed text: the total and the previous digit. A digit is subtracted below a
-- larger one, which the total holds already.
unfoldable pub total_of : String → ℕ × ℕ
unfolding roman_digit
total_of []ˢ = (0, 0)
total_of (c ∷ˢ s) =
    let (total, previous) = total_of s in
    let digit = roman_digit c in
    (if ltb digit previous then total - digit else total + digit, digit)

-- `_UNICODE_ROMAN`: the letters of U+2160 to U+216F, and those of U+2170 to U+217F
unfoldable pub translate_at : ℕ → List String → String → String
translate_at k [] other = other
translate_at zero (t ∷ ts) other = t
translate_at (suc k) (t ∷ ts) other = translate_at k ts other

abbrev pub upper_letters : List String
upper_letters =
    "I" ∷ "II" ∷ "III" ∷ "IV" ∷ "V" ∷ "VI" ∷ "VII" ∷ "VIII" ∷ "IX" ∷ "X" ∷ "XI" ∷ "XII" ∷ "L" ∷ "C"
    ∷ "D" ∷ "M" ∷ []

abbrev pub lower_letters : List String
lower_letters =
    "i" ∷ "ii" ∷ "iii" ∷ "iv" ∷ "v" ∷ "vi" ∷ "vii" ∷ "viii" ∷ "ix" ∷ "x" ∷ "xi" ∷ "xii" ∷ "l" ∷ "c"
    ∷ "d" ∷ "m" ∷ []

unfoldable pub translate : String → String
unfolding translate_at
translate []ˢ = []ˢ
translate (c ∷ˢ s) =
    let same = c ∷ˢ []ˢ in
    let n = code c in
    append
      (if ltb n 8544
        then same
        else if ltb n 8560
        then translate_at (n - 8544) upper_letters same
        else translate_at (n - 8560) lower_letters same)
      (translate s)

unfoldable pub roman_to_int : (String → String) → String → Option ℕ
unfolding translate is_roman total_of
roman_to_int upper value =
    let text = upper (translate value) in if is_roman text then some (total_of text).0 else none

-- ===== src/Roman/Tests.antt =====
-- Numerals as they stand in the names of acts.
use dockb.Prelude.{◌<◌, String, ◌≡◌, refl, ◌↔◌, none, some}
use dockb.Roman.{translate, roman_to_int}
use dockb.Roman.Numerals.{roman}
use dockb.Roman.Accepted.{roman_to_int_iff}

-- The texts here are in upper case.
abbrev upper : String → String
upper s = s

test_four : roman_to_int upper "Ⅳ" ≡ some 4
unfolding roman_to_int
test_four = refl

test_year : roman_to_int upper "MCMXC" ≡ some 1990
unfolding roman_to_int
test_year = refl

test_not_canonical : roman_to_int upper "IIII" ≡ none
unfolding roman_to_int
test_not_canonical = refl

-- The empty text is 0.
test_empty : roman_to_int upper "" ≡ some 0
unfolding roman_to_int
test_empty = refl

roman_to_int_iff_example :
    (roman_to_int upper "XIV" ≡ some 14) ↔ ((14 < 4000) × (upper (translate "XIV") ≡ roman 14))
roman_to_int_iff_example = roman_to_int_iff upper "XIV" 14

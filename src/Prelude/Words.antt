-- ===== src/Prelude/Words.antt =====
-- Python's `str.split` and `str.join`.
use Prim.Native.Char.{Char, code}
use Prim.Native.String.{String, [] as []ˢ, ◌∷◌ as ◌∷ˢ◌}
use mathlib.Core.Bool.{Bool, true, false}
use mathlib.Core.Path.{◌≡◌, refl}
use Prim.Native.Nat.{ℕ}
use mathlib.Core.List.{List, [], ◌∷◌}
use dockb.Prelude.Tests.{if◌then◌else◌, eqb}
use dockb.Prelude.Text.{is_space, append}

-- the character in front of the first word
abbrev onto_first : Char → List String → List String
onto_first c [] = (c ∷ˢ []ˢ) ∷ []
onto_first c (w ∷ ws) = (c ∷ˢ w) ∷ ws

abbrev in_word : String → Bool
in_word []ˢ = false
in_word (c ∷ˢ s) = if is_space c then false else true

-- `s.split()`
unfoldable pub split_spaces : String → List String
unfolding is_space
split_spaces []ˢ = []
split_spaces (c ∷ˢ s) =
    let rest = split_spaces s in
    if is_space c then rest else if in_word s then onto_first c rest else (c ∷ˢ []ˢ) ∷ rest

-- `s.split(mark)` at one character, by its code point
unfoldable pub split_on : ℕ → String → List String
split_on mark []ˢ = []ˢ ∷ []
split_on mark (c ∷ˢ s) =
    let rest = split_on mark s in if eqb (code c) mark then []ˢ ∷ rest else onto_first c rest

-- `mark.join(words)`
unfoldable pub join_with : String → List String → String
join_with mark [] = []ˢ
join_with mark (w ∷ []) = w
join_with mark (w ∷ v ∷ ws) = append w (append mark (join_with mark (v ∷ ws)))

test_split : split_spaces "  ab c " ≡ "ab" ∷ "c" ∷ []
unfolding split_spaces
test_split = refl

test_split_on : split_on 45 "a--bc" ≡ "a" ∷ "" ∷ "bc" ∷ []
unfolding split_on
test_split_on = refl

test_join : join_with ", " ("a" ∷ "b" ∷ []) ≡ "a, b"
unfolding join_with
test_join = refl

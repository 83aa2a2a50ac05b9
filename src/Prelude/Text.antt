-- ===== src/Prelude/Text.antt =====
-- Python's `str` operations that the program uses.
use Prim.Native.Nat.{ℕ, suc, ◌≤◌}
use Prim.Native.Char.{Char, code}
use Prim.Native.String.{String, [] as []ˢ, ◌∷◌ as ◌∷ˢ◌}
use mathlib.Core.Path.{◌≡◌, refl, ap, ◌∙◌}
use mathlib.Core.Logic.{inl, inr}
use mathlib.Core.Bool.{Bool, true, false, ◌||◌, ◌&&◌}
use mathlib.Core.List.{List, [], ◌∷◌}
use native.Mathlib.Omega.{arith}
use text.Mathlib.Text.{◌==◌}
use dockb.Prelude.Tests.{if◌then◌else◌, leb, eqb, Bool-cases}

-- `key in keys`
abbrev pub has : String → List String → Bool
has k [] = false
has k (j ∷ js) = (j == k) || has k js

abbrev pub between : ℕ → ℕ → ℕ → Bool
between lo hi c = leb lo c && leb c hi

-- `str.isspace` of one character: the code points that `str.strip` removes
unfoldable pub is_space : Char → Bool
is_space ch =
    let c = code ch in
    between 9 13 c
    || between 28 32 c
    || eqb c 133
    || eqb c 160
    || eqb c 5760
    || between 8192 8202 c
    || between 8232 8233 c
    || eqb c 8239
    || eqb c 8287
    || eqb c 12288

abbrev pub is_empty : String → Bool
is_empty []ˢ = true
is_empty (c ∷ˢ s) = false

unfoldable pub lstrip : String → String
lstrip []ˢ = []ˢ
lstrip (c ∷ˢ s) = let rest = lstrip s in if is_space c then rest else c ∷ˢ s

unfoldable pub rstrip : String → String
rstrip []ˢ = []ˢ
rstrip (c ∷ˢ s) = let rest = rstrip s in if is_space c && is_empty rest then []ˢ else c ∷ˢ rest

-- `str.strip()`
unfoldable pub strip : String → String
unfolding lstrip rstrip is_space
strip s = rstrip (lstrip s)

lstrip-lstrip : (s : String) → lstrip (lstrip s) ≡ lstrip s
unfolding lstrip
lstrip-lstrip []ˢ = refl
lstrip-lstrip (c ∷ˢ s) = ground (arith, lstrip-lstrip s)

rstrip-rstrip : (s : String) → rstrip (rstrip s) ≡ rstrip s
unfolding rstrip
rstrip-rstrip []ˢ = refl
rstrip-rstrip (c ∷ˢ s) = ground (arith, rstrip-rstrip s)

abbrev size : String → ℕ
size []ˢ = 0
size (c ∷ˢ s) = suc (size s)

size-lstrip-le : (s : String) → size (lstrip s) ≤ size s
unfolding lstrip
size-lstrip-le []ˢ = omega arith
size-lstrip-le (c ∷ˢ s) = ground (arith, size-lstrip-le s)

lstrip_fixed : (c : Char) (s : String) → lstrip (c ∷ˢ s) ≡ c ∷ˢ s → is_space c ≡ false
unfolding lstrip
lstrip_fixed c s h = elim (Bool-cases (is_space c)) [
  | inl space ↦
      let shorter : size (lstrip s) ≡ suc (size s) = ap size (rw space at h) in
      absurd (omega (arith, size-lstrip-le s))
  | inr other ↦ other
]

lstrip-rstrip : (s : String) → lstrip s ≡ s → lstrip (rstrip s) ≡ rstrip s
unfolding rstrip lstrip
lstrip-rstrip []ˢ h = refl
lstrip-rstrip (c ∷ˢ s) h = ground (arith, lstrip_fixed c s h)

pub strip-strip : (s : String) → strip (strip s) ≡ strip s
unfolding strip
strip-strip s = ap rstrip (lstrip-rstrip (lstrip s) (lstrip-lstrip s)) ∙ rstrip-rstrip (lstrip s)

test_strip : strip "  a b  " ≡ "a b"
unfolding strip
test_strip = refl

-- `s + t`, which computes at the characters of s
abbrev pub append : String → String → String
append []ˢ t = t
append (c ∷ˢ s) t = c ∷ˢ append s t

pub append_nil : (s : String) → append s []ˢ ≡ s
append_nil []ˢ = refl
append_nil (c ∷ˢ s) = ap (λ (x : String). c ∷ˢ x) (append_nil s)

pub append_assoc : (s t u : String) → append (append s t) u ≡ append s (append t u)
append_assoc []ˢ t u = refl
append_assoc (c ∷ˢ s) t u = ap (λ (x : String). c ∷ˢ x) (append_assoc s t u)

-- ===== src/PromptTokens/Fields.antt =====
-- A token's three fields: put together and taken apart.
use dockb.Prelude.{
  ℕ, String, ◌≡◌, refl, ap, ◌∙◌, inl, inr, Bool, true, false, not, ◌&&◌, Option, none, some, arith,
  eq_iff, Bool-cases, Option-cases,
}
use Prim.Native.Char.{Char, code}
use Prim.Native.String.{[] as []ˢ, ◌∷◌ as ◌∷ˢ◌}
use dockb.Prelude.Text.{append, is_empty}
use dockb.Prelude.Decimal.{all_chars, is_decimal}
use dockb.PromptTokens.{is_dot, partition, rpartition, parse, dotted}

abbrev pub dot_free : String → Bool
dot_free []ˢ = true
dot_free (c ∷ˢ s) = not (is_dot c) && dot_free s

abbrev first_code : String → ℕ
first_code []ˢ = 0
first_code (c ∷ˢ s) = code c

pub decimal-dot_free : (s : String) → all_chars is_decimal s ≡ true → dot_free s ≡ true
decimal-dot_free []ˢ h = refl
decimal-dot_free (c ∷ˢ s) h = elim (Bool-cases (is_dot c)) [
  | inl dot ↦
      let dot_code : code c ≡ 46 = ap first_code ((eq_iff (c ∷ˢ []ˢ) ".").0 dot) in
      absurd (ground arith)
  | inr other ↦ ground (arith, other, decimal-dot_free s)
]

split_dot : (c : Char) (s : String) → is_dot c ≡ true → c ∷ˢ s ≡ dotted []ˢ s
split_dot c s h = ap (λ x. append x s) ((eq_iff (c ∷ˢ []ˢ) ".").0 h)

partition-dotted : (a b : String) → dot_free a ≡ true → partition (dotted a b) ≡ some (a, b)
unfolding partition
partition-dotted []ˢ b h = refl
partition-dotted (c ∷ˢ a) b h =
    let other : is_dot c ≡ false = ground arith in
    rw (partition, other, partition-dotted a b (ground arith)) refl

rpartition-none : (b : String) → dot_free b ≡ true → rpartition b ≡ none
unfolding rpartition
rpartition-none []ˢ h = refl
rpartition-none (c ∷ˢ b) h =
    let other : is_dot c ≡ false = ground arith in rw (rpartition-none b (ground arith), other) refl

rpartition-dotted : (a b : String) → dot_free b ≡ true → rpartition (dotted a b) ≡ some (a, b)
unfolding rpartition
rpartition-dotted []ˢ b h = rw (rpartition-none b h) refl
rpartition-dotted (c ∷ˢ a) b h = rw (rpartition-dotted a b h) refl

-- Fields of which the outer two have no dot are read back.
pub parse-dotted :
    (e p m : String)
    → dot_free e ≡ true
    → is_empty p ≡ false
    → dot_free m ≡ true
    → parse (dotted e (dotted p m)) ≡ some (e, p, m)
unfolding parse
parse-dotted e p m he hp hm =
    rw (parse, partition-dotted e (dotted p m) he, rpartition-dotted p m hm, hp) refl

abbrev Joins : String → Option (String × String) → Type 0
Joins s none = Unit
Joins s (some (a, b)) = s ≡ dotted a b

Joins-cons :
    (c : Char) (s : String) (o : Option (String × String))
    → Joins s o
    → Joins (c ∷ˢ s) (elim o [ none ↦ none | some x ↦ some (c ∷ˢ x.0, x.1) ])
Joins-cons c s none h = tt
Joins-cons c s (some (a, b)) h = ap (λ (x : String). c ∷ˢ x) h

partition-Joins : (s : String) → Joins s (partition s)
unfolding partition
partition-Joins []ˢ = tt
partition-Joins (c ∷ˢ s) = elim (Bool-cases (is_dot c)) [
  | inl dot ↦ rw (partition, dot) (split_dot c s dot)
  | inr other ↦ rw (partition, other) (Joins-cons c s (partition s) (partition-Joins s))
]

rpartition-Joins : (s : String) → Joins s (rpartition s)
unfolding rpartition
rpartition-Joins []ˢ = tt
rpartition-Joins (c ∷ˢ s) =
    let ih = rpartition-Joins s in
    elim (Option-cases (rpartition s)) [
      | inl no_dot ↦ elim (Bool-cases (is_dot c)) [
        | inl dot ↦ rw (rpartition, no_dot, dot) (split_dot c s dot)
        | inr other ↦ rw (rpartition, no_dot, other) tt
      ]
      | inr ((a, b), found) ↦ rw (rpartition, found) (ap (λ (x : String). c ∷ˢ x) (rw found at ih))
    ]

abbrev pub Spelled : String → Option (String × String × String) → Type 0
Spelled s none = Unit
Spelled s (some (e, p, m)) = s ≡ dotted e (dotted p m)

-- A token that can be taken apart is its fields put together.
pub parse-Spelled : (s : String) → Spelled s (parse s)
unfolding parse
parse-Spelled s =
    let h = partition-Joins s in
    elim (Option-cases (partition s)) [
      | inl no_dot ↦ rw (parse, no_dot) tt
      | inr ((e, rest), found) ↦
          let first : s ≡ dotted e rest = rw found at h in
          let h' = rpartition-Joins rest in
          elim (Option-cases (rpartition rest)) [
            | inl no_dot ↦ rw (parse, found, no_dot) tt
            | inr ((p, m), found') ↦
                let second : rest ≡ dotted p m = rw found' at h' in
                elim (Bool-cases (is_empty p)) [
                  | inl empty ↦ rw (parse, found, found', empty) tt
                  | inr filled ↦ rw (parse, found, found', filled) (first ∙ rw second refl)
                ]
          ]
    ]

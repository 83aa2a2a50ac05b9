-- ===== src/Roman/Numerals.antt =====
-- The texts that are read as Roman numerals, and their numbers.
use dockb.Prelude.{
  ℕ, zero, suc, ◌+◌, ◌-◌, ◌*◌, ◌/◌, ◌%◌, ◌≤◌, ◌<◌, String, ◌≡◌, refl, ap, inl, inr, arith, ltb, eqb,
  if◌then◌else◌, Bool-cases,
}
use Prim.Native.Char.{Char}
use Prim.Native.String.{[] as []ˢ, ◌∷◌ as ◌∷ˢ◌}
use dockb.Roman.{roman_digit, total_of}

-- k times the character in front of a text
abbrev pub repeat : Char → ℕ → String → String
repeat c zero s = s
repeat c (suc k) s = c ∷ˢ repeat c k s

-- One decimal digit in Roman letters.
abbrev pub glyphs : Char → Char → Char → ℕ → String → String
glyphs i v x d s =
    if ltb d 4
    then repeat i d s
    else if eqb d 4
    then i ∷ˢ v ∷ˢ s
    else if ltb d 9
    then v ∷ˢ repeat i (d - 5) s
    else i ∷ˢ x ∷ˢ s

abbrev pub numeral : ℕ → ℕ → ℕ → ℕ → String
numeral a b c d =
    repeat "M" a (glyphs "C" "D" "M" b (glyphs "X" "L" "C" c (glyphs "I" "V" "X" d []ˢ)))

-- The numeral of a number below 4000, digit by digit.
abbrev pub roman : ℕ → String
roman n = numeral (n / 1000) (n / 100 % 10) (n / 10 % 10) (n % 10)

-- The value of a text, with the digit that it begins with.
module _ (w : ℕ) (positive : 0 < w) where
  -- Below the text everything is smaller than the weight.
  record Total (s : String) (t : ℕ) (cap : ℕ) : Type 0 where
    total : (total_of s).0 ≡ t
    capped : (total_of s).1 ≤ cap

  Total-repeat :
      (i : Char) (s : String) (k t : ℕ)
      → roman_digit i ≡ w
      → Total s t w
      → Total (repeat i k s) (t + k * w) w
  unfolding total_of
  Total-repeat i s zero t e h = record { total = omega (arith, h.total); capped = h.capped }
  Total-repeat i s (suc k) t e h =
      let rest = Total-repeat i s k t e h in
      record { total = ground (arith, e, rest.total, rest.capped); capped = ground (arith, e) }

  Total-glyphs :
      (i v x : Char) (s : String) (d t : ℕ)
      → d ≤ 9
      → (roman_digit i ≡ w) × (roman_digit v ≡ 5 * w) × (roman_digit x ≡ 10 * w)
      → Total s t w
      → Total (glyphs i v x d s) (t + d * w) (5 * w)
  unfolding total_of
  Total-glyphs i v x s d t le (ei, ev, ex) h = elim (Bool-cases (ltb d 4)) [
    | inl few ↦
        let r = Total-repeat i s d t ei h in
        rw few (record { total = r.total; capped = omega (arith, r.capped) })
    | inr many ↦ elim (Bool-cases (eqb d 4)) [
      | inl four ↦
          let four' : d ≡ 4 = ground arith in
          rw (many, four)
            (record {
              total = ground (arith, ei, ev, h.total, h.capped, four');
              capped = ground (arith, ei, ev);
            })
      | inr not_four ↦ elim (Bool-cases (ltb d 9)) [
        | inl below ↦
            let r = Total-repeat i s (d - 5) t ei h in
            let high : 5 + (d - 5) ≡ d = ground arith in
            let split : 5 * w + (d - 5) * w ≡ d * w = grind (arith, ap (λ (k : ℕ). k * w) high) in
            rw (many, not_four, below)
              (record {
                total = ground (arith, ev, r.total, r.capped, split);
                capped = ground (arith, ev);
              })
        | inr nine ↦
            let nine' : d ≡ 9 = ground arith in
            rw (many, not_four, nine)
              (record {
                total = ground (arith, ei, ex, h.total, h.capped, nine');
                capped = ground (arith, ei, ex);
              })
      ]
    ]
  ]

Total-weaken :
    (w w' : ℕ) (p : 0 < w) (p' : 0 < w') (s : String) (t cap cap' : ℕ)
    → cap ≤ cap'
    → Total w p s t cap
    → Total w' p' s t cap'
Total-weaken w w' p p' s t cap cap' le h = record {
  total = h.total;
  capped = omega (arith, h.capped);
}

-- The number of a numeral.
pub total-numeral :
    (a b c d : ℕ)
    → b ≤ 9
    → c ≤ 9
    → d ≤ 9
    → (total_of (numeral a b c d)).0 ≡ d + c * 10 + b * 100 + a * 1000
unfolding total_of
total-numeral a b c d hb hc hd =
    let none_yet : Total 1 (omega arith) []ˢ 0 1 = record { total = refl; capped = omega arith } in
    let ones = Total-glyphs 1 (omega arith) "I" "V" "X" []ˢ d 0 hd (refl, refl, refl) none_yet in
    let tens =
      Total-glyphs 10 (omega arith) "X" "L" "C" _ c _ hc (refl, refl, refl)
        (Total-weaken 1 10 (omega arith) (omega arith) _ _ 5 10 (omega arith) ones) in
    let hundreds =
      Total-glyphs 100 (omega arith) "C" "D" "M" _ b _ hb (refl, refl, refl)
        (Total-weaken 10 100 (omega arith) (omega arith) _ _ 50 100 (omega arith) tens) in
    let thousands =
      Total-repeat 1000 (omega arith) "M" _ a _ refl
        (Total-weaken 100 1000 (omega arith) (omega arith) _ _ 500 1000 (omega arith) hundreds) in
    omega (arith, thousands.total)

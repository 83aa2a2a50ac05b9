-- ===== src/Roman/Accepted.antt =====
-- The pattern lets through the canonical numerals and nothing else.
use dockb.Prelude.{
  ℕ, zero, suc, ◌+◌, ◌-◌, ◌*◌, ◌/◌, ◌%◌, ◌≤◌, ◌<◌, String, ◌≡◌, refl, sym, ap, ap₂, ◌∙◌, ◌↔◌, ◌⊎◌,
  inl, inr, Bool, true, false, ◌||◌, Option, none, some, List, [], ◌∷◌, ◌++◌, arith, ltb, eqb,
  any_of, Bool-cases, Option-cases, eqb_iff,
}
use Prim.Native.Char.{Char, code}
use Prim.Native.String.{[] as []ˢ, ◌∷◌ as ◌∷ˢ◌}
use text.Mathlib.TextEquality.{Char-path}
use dockb.Prelude.Text.{is_empty}
use dockb.Roman.{
  eat, up_to, eat_next, five_up, one_digit, followed_by, is_roman, total_of, translate,
  roman_to_int,
}
use dockb.Roman.Numerals.{repeat, glyphs, numeral, roman, total-numeral}

any_of-append :
    (f : String → Bool) (xs ys : List String) → any_of f (xs ++ ys) ≡ any_of f xs || any_of f ys
any_of-append f [] ys = refl
any_of-append f (x ∷ xs) ys = ground (arith, any_of-append f xs ys)

any_of-followed_by :
    (f : String → Bool) (p : String → List String) (ss : List String)
    → any_of f (followed_by p ss) ≡ any_of (λ s. any_of f (p s)) ss
unfolding followed_by
any_of-followed_by f p [] = refl
any_of-followed_by f p (s ∷ ss) =
    any_of-append f (p s) (followed_by p ss)
    ∙ ap (λ (b : Bool). any_of f (p s) || b) (any_of-followed_by f p ss)

eat_same : (c : Char) (s : String) → eat c (c ∷ˢ s) ≡ some s
unfolding eat
eat_same c s = ground arith

eat_inv : (c : Char) (s r : String) → eat c s ≡ some r → s ≡ c ∷ˢ r
unfolding eat
eat_inv c []ˢ r h = cc
eat_inv c (d ∷ˢ s) r h = elim (Bool-cases (eqb (code c) (code d))) [
  | inr other ↦ absurd (ground (arith, h, other))
  | inl same ↦
      let e : some s ≡ some r = rw same at h in
      ap₂ (λ (x : Char) (y : String). x ∷ˢ y)
        (sym (Char-path c d ((eqb_iff (code c) (code d)).0 same)))
        (ap (λ o. elim o [ none ↦ s | some y ↦ y ]) e)
]

module _ (f : String → Bool) where
  up_to-here : (c : Char) (k : ℕ) (s : String) → f s ≡ true → any_of f (up_to c k s) ≡ true
  unfolding up_to
  up_to-here c zero s h = ground arith
  up_to-here c (suc k) s h = elim (Option-cases (eat c s)) [
    | inl stops ↦ rw (up_to, stops) (ground arith)
    | inr (r, goes) ↦ rw (up_to, goes) (ground (arith, any_of-append f (up_to c k r) (s ∷ [])))
  ]

  up_to-repeat :
      (c : Char) (k j : ℕ) (s : String)
      → j ≤ k
      → f s ≡ true
      → any_of f (up_to c k (repeat c j s)) ≡ true
  unfolding up_to
  up_to-repeat c k zero s le h = up_to-here c k s h
  up_to-repeat c zero (suc j) s le h = absurd (omega arith)
  up_to-repeat c (suc k) (suc j) s le h =
      rw (up_to, eat_same c (repeat c j s))
        (ground (
          arith,
          any_of-append f (up_to c k (repeat c j s)) (repeat c (suc j) s ∷ []),
          up_to-repeat c k j s (omega arith) h,
        ))

  -- Every match is a repetition.
  up_to-inv :
      (c : Char) (k : ℕ) (s : String)
      → any_of f (up_to c k s) ≡ true
      → (j : ℕ) × (r : String) × (j ≤ k) × (s ≡ repeat c j r) × (f r ≡ true)
  unfolding up_to
  up_to-inv c zero s h = (0, s, omega arith, refl, ground arith)
  up_to-inv c (suc k) s h = elim (Option-cases (eat c s)) [
    | inl stops ↦
        let here : any_of f (s ∷ []) ≡ true = rw (up_to, stops) at h in
        (0, s, omega arith, refl, ground arith)
    | inr (t, goes) ↦
        let more : any_of f (up_to c k t ++ s ∷ []) ≡ true = rw (up_to, goes) at h in
        elim (Bool-cases (any_of f (up_to c k t))) [
          | inl later ↦
              let (j, r, le, e, g) = up_to-inv c k t later in
              (suc j, r, omega arith, eat_inv c s t goes ∙ ap (λ (x : String). c ∷ˢ x) e, g)
          | inr not_later ↦
              (0, s, omega arith, refl, ground (arith, any_of-append f (up_to c k t) (s ∷ [])))
        ]
  ]

  five_up-here :
      (i v : Char) (s : String) → any_of f (up_to i 3 s) ≡ true → any_of f (five_up i v s) ≡ true
  unfolding five_up
  five_up-here i v s h = elim (Option-cases (eat v s)) [
    | inl stops ↦ rw (five_up, stops) h
    | inr (r, goes) ↦
        rw (five_up, goes) (ground (arith, any_of-append f (up_to i 3 r) (up_to i 3 s)))
  ]

  five_up-five :
      (i v : Char) (s : String)
      → any_of f (up_to i 3 s) ≡ true
      → any_of f (five_up i v (v ∷ˢ s)) ≡ true
  unfolding five_up
  five_up-five i v s h =
      rw (five_up, eat_same v s)
        (ground (arith, any_of-append f (up_to i 3 s) (up_to i 3 (v ∷ˢ s))))

  five_up-inv :
      (i v : Char) (s : String)
      → any_of f (five_up i v s) ≡ true
      → (any_of f (up_to i 3 s) ≡ true)
        ⊎ ((r : String) × (s ≡ v ∷ˢ r) × (any_of f (up_to i 3 r) ≡ true))
  unfolding five_up
  five_up-inv i v s h = elim (Option-cases (eat v s)) [
    | inl stops ↦ inl (rw (five_up, stops) at h)
    | inr (r, goes) ↦
        let both : any_of f (up_to i 3 r ++ up_to i 3 s) ≡ true = rw (five_up, goes) at h in
        elim (Bool-cases (any_of f (up_to i 3 r))) [
          | inl with ↦ inr (r, eat_inv v s r goes, with)
          | inr without ↦ inl (ground (arith, any_of-append f (up_to i 3 r) (up_to i 3 s)))
        ]
  ]

  -- The three alternatives of a digit.
  one_digit-lem :
      (i v x : Char) (s : String)
      → any_of f (one_digit i v x s)
        ≡ any_of f (eat_next x (eat i s))
          || (any_of f (eat_next v (eat i s)) || any_of f (five_up i v s))
  unfolding one_digit
  one_digit-lem i v x s =
      any_of-append f (eat_next x (eat i s)) (eat_next v (eat i s) ++ five_up i v s)
      ∙ ap (λ (b : Bool). any_of f (eat_next x (eat i s)) || b)
          (any_of-append f (eat_next v (eat i s)) (five_up i v s))

  eat_next-here :
      (i x : Char) (s : String) → f s ≡ true → any_of f (eat_next x (eat i (i ∷ˢ x ∷ˢ s))) ≡ true
  eat_next-here i x s h = rw (eat_same i (x ∷ˢ s), eat_next, eat_same x s) (ground arith)

  eat_next-inv :
      (i x : Char) (s : String)
      → any_of f (eat_next x (eat i s)) ≡ true
      → (r : String) × (s ≡ i ∷ˢ x ∷ˢ r) × (f r ≡ true)
  eat_next-inv i x s h = elim (Option-cases (eat i s)) [
    | inl stops ↦ let no_match : any_of f [] ≡ true = rw stops at h in cc
    | inr (t, goes) ↦ elim (Option-cases (eat x t)) [
      | inl stops ↦ let no_match : any_of f [] ≡ true = rw (goes, eat_next, stops) at h in cc
      | inr (r, goes') ↦
          let here : any_of f (r ∷ []) ≡ true = rw (goes, eat_next, goes') at h in
          (r, eat_inv i s t goes ∙ ap (λ (y : String). i ∷ˢ y) (eat_inv x t r goes'), ground arith)
    ]
  ]

  one_digit-here :
      (i v x : Char) (d : ℕ) (s : String)
      → f s ≡ true
      → any_of f (one_digit i v x (glyphs i v x d s)) ≡ true
  one_digit-here i v x d s h = elim (Bool-cases (ltb d 4)) [
    | inl few ↦ rw few (
        ground (
          arith,
          one_digit-lem i v x (repeat i d s),
          five_up-here i v (repeat i d s) (up_to-repeat i 3 d s (ground arith) h),
        ))
    | inr many ↦ elim (Bool-cases (eqb d 4)) [
      | inl four ↦
          rw (many, four) (ground (arith, one_digit-lem i v x (i ∷ˢ v ∷ˢ s), eat_next-here i v s h))
      | inr not_four ↦ elim (Bool-cases (ltb d 9)) [
        | inl below ↦
            rw (many, not_four, below)
              (ground (
                arith,
                one_digit-lem i v x (v ∷ˢ repeat i (d - 5) s),
                five_up-five i v (repeat i (d - 5) s) (up_to-repeat i 3 (d - 5) s (ground arith) h),
              ))
        | inr nine ↦
            rw (many, not_four, nine)
              (ground (arith, one_digit-lem i v x (i ∷ˢ x ∷ˢ s), eat_next-here i x s h))
      ]
    ]
  ]

  glyphs-few : (i v x : Char) (j : ℕ) (s : String) → j ≤ 3 → glyphs i v x j s ≡ repeat i j s
  glyphs-few i v x j s h = let few : ltb j 4 ≡ true = ground arith in rw few refl

  glyphs-high :
      (i v x : Char) (j : ℕ) (s : String) → j ≤ 3 → glyphs i v x (5 + j) s ≡ v ∷ˢ repeat i j s
  glyphs-high i v x j s h =
      let many : ltb (5 + j) 4 ≡ false = ground arith in
      let not_four : eqb (5 + j) 4 ≡ false = ground arith in
      let below : ltb (5 + j) 9 ≡ true = ground arith in
      let rest : 5 + j - 5 ≡ j = omega arith in rw (many, not_four, below, rest) refl

  one_digit-inv :
      (i v x : Char) (s : String)
      → any_of f (one_digit i v x s) ≡ true
      → (d : ℕ) × (r : String) × (d ≤ 9) × (s ≡ glyphs i v x d r) × (f r ≡ true)
  one_digit-inv i v x s h =
      let all = sym (one_digit-lem i v x s) ∙ h in
      elim (Bool-cases (any_of f (eat_next x (eat i s)))) [
        | inl nine ↦ let (r, e, g) = eat_next-inv i x s nine in (9, r, omega arith, e, g)
        | inr not_nine ↦ elim (Bool-cases (any_of f (eat_next v (eat i s)))) [
          | inl four ↦ let (r, e, g) = eat_next-inv i v s four in (4, r, omega arith, e, g)
          | inr not_four ↦ elim (five_up-inv i v s (ground (arith, all, not_nine, not_four))) [
            | inl low ↦
                let (j, r, le, e, g) = up_to-inv i 3 s low in
                (j, r, omega arith, e ∙ sym (glyphs-few i v x j r le), g)
            | inr (t, e', high) ↦
                let (j, r, le, e, g) = up_to-inv i 3 t high in
                (
                  5 + j,
                  r,
                  omega arith,
                  e' ∙ ap (λ (y : String). v ∷ˢ y) e ∙ sym (glyphs-high i v x j r le),
                  g,
                )
          ]
        ]
      ]

digits_of :
    (a b c d n : ℕ)
    → b ≤ 9
    → c ≤ 9
    → d ≤ 9
    → n ≡ d + c * 10 + b * 100 + a * 1000
    → numeral a b c d ≡ roman n
digits_of a b c d n hb hc hd h =
    let ea : a ≡ n / 1000 = omega arith in
    let eb : b ≡ n / 100 % 10 = omega arith in
    let ec : c ≡ n / 10 % 10 = omega arith in
    let ed : d ≡ n % 10 = omega arith in
    ap₂ (λ (k l : ℕ). numeral a b k l) ec ed
    ∙ ap₂ (λ (k l : ℕ). numeral k l (n / 10 % 10) (n % 10)) ea eb

is_roman_iff :
    (s : String)
    → is_roman s
      ≡ any_of
          (λ m.
            any_of
              (λ h.
                any_of (λ t. any_of is_empty (one_digit "I" "V" "X" t)) (one_digit "X" "L" "C" h))
              (one_digit "C" "D" "M" m))
          (up_to "M" 3 s)
unfolding is_roman
is_roman_iff s =
    let p = one_digit "I" "V" "X" in
    let q = one_digit "X" "L" "C" in
    let r = one_digit "C" "D" "M" in
    any_of-followed_by is_empty p (followed_by q (followed_by r (up_to "M" 3 s)))
    ∙ any_of-followed_by (λ t. any_of is_empty (p t)) q (followed_by r (up_to "M" 3 s))
    ∙ any_of-followed_by (λ h. any_of (λ t. any_of is_empty (p t)) (q h)) r (up_to "M" 3 s)

is_roman-roman : (n : ℕ) → n < 4000 → is_roman (roman n) ≡ true
is_roman-roman n h =
    is_roman_iff (roman n)
    ∙ up_to-repeat _ "M" 3 (n / 1000) _ (omega arith) (
        one_digit-here _ "C" "D" "M" (n / 100 % 10) _ (
          one_digit-here _ "X" "L" "C" (n / 10 % 10) _
            (one_digit-here is_empty "I" "V" "X" (n % 10) []ˢ refl)))

empty_inv : (s : String) → is_empty s ≡ true → s ≡ []ˢ
empty_inv []ˢ h = refl
empty_inv (c ∷ˢ s) h = cc

is_roman-inv :
    (s : String) → is_roman s ≡ true → (n : ℕ) × (n < 4000) × (s ≡ roman n) × ((total_of s).0 ≡ n)
is_roman-inv s h =
    let (a, r1, ha, e1, g1) = up_to-inv _ "M" 3 s (sym (is_roman_iff s) ∙ h) in
    let (b, r2, hb, e2, g2) = one_digit-inv _ "C" "D" "M" r1 g1 in
    let (c, r3, hc, e3, g3) = one_digit-inv _ "X" "L" "C" r2 g2 in
    let (d, r4, hd, e4, g4) = one_digit-inv is_empty "I" "V" "X" r3 g3 in
    let n = d + c * 10 + b * 100 + a * 1000 in
    let whole : s ≡ numeral a b c d =
      e1
      ∙ ap (repeat "M" a) (
          e2
          ∙ ap (glyphs "C" "D" "M" b) (
              e3 ∙ ap (glyphs "X" "L" "C" c) (e4 ∙ ap (glyphs "I" "V" "X" d) (empty_inv r4 g4)))) in
    (
      n,
      omega arith,
      whole ∙ digits_of a b c d n hb hc hd refl,
      ap (λ (x : String). (total_of x).0) whole ∙ total-numeral a b c d hb hc hd,
    )

total-roman : (n : ℕ) → (total_of (roman n)).0 ≡ n
total-roman n =
    let t =
      total-numeral (n / 1000) (n / 100 % 10) (n / 10 % 10) (n % 10) (omega arith) (omega arith)
        (omega arith) in
    omega arith

module _ (upper : String → String) where
  -- A text is read as a number exactly if it is, in upper case and with its Roman letters spelled out,
  -- the canonical numeral of that number, which is below 4000. The numeral of 0 is the empty text.
  pub roman_to_int_iff :
      (s : String) (n : ℕ)
      → (roman_to_int upper s ≡ some n) ↔ ((n < 4000) × (upper (translate s) ≡ roman n))
  unfolding roman_to_int
  roman_to_int_iff s n =
      let text = upper (translate s) in
      (
        λ h. elim (Bool-cases (is_roman text)) [
          | inr other ↦ absurd (ground (arith, (rw (roman_to_int, other) at h)))
          | inl accepted ↦
              let (m, below, e, value) = is_roman-inv text accepted in
              let h' : some (total_of text).0 ≡ some n = rw (roman_to_int, accepted) at h in
              let same : (total_of text).0 ≡ n =
                ap (λ (o : Option ℕ). elim o [ none ↦ (total_of text).0 | some k ↦ k ]) h' in
              let mn : m ≡ n = sym value ∙ same in (rw (← mn) below, e ∙ ap roman mn)
        ],
        λ h.
            rw
              (
                roman_to_int,
                ap is_roman h.1 ∙ is_roman-roman n h.0,
                ap (λ (x : String). (total_of x).0) h.1 ∙ total-roman n,
              )
              refl,
      )

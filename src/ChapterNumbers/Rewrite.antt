-- ===== src/ChapterNumbers/Rewrite.antt =====
-- A title whose number is replaced has the new number, in the place of the old one.
use dockb.Prelude.{
  ℕ, ◌+◌, ◌-◌, ◌*◌, String, ◌≡◌, refl, sym, ap, ◌∙◌, inl, inr, Bool, true, false, ◌&&◌, ◌||◌,
  Option, none, some, arith, eqb, Bool-cases, Option-cases,
}
use mathlib.Core.Path.{subst}
use Prim.Native.Char.{Char, code}
use Prim.Native.String.{[] as []ˢ, ◌∷◌ as ◌∷ˢ◌}
use dockb.Prelude.Text.{append, append_nil, append_assoc, is_space, is_empty}
use dockb.Prelude.Decimal.{
  decimal, value, number, all_chars, is_decimal, number-decimal, decimal-decimal,
}
use dockb.ChapterNumbers.{
  ChapterNumber, is_letter, take_letter, at_end, at_space, behind_space, is_digit, behind_digit,
  take_digits, span_of, match_at, find_from, find_chapter_number, renumber_title,
}

-- What the table says of the characters that the rule for titles names.
pub record Digits (digit_value : Char → Option ℕ) : Type 0 where
  pub ascii : (c : Char) → is_decimal (code c) ≡ true → digit_value c ≡ some (code c - 48)
  pub no_space : (c : Char) → is_space c ≡ true → digit_value c ≡ none

space_is_space : is_space " " ≡ true
unfolding is_space
space_is_space = refl

newline_is_space : (c : Char) → eqb (code c) 10 ≡ true → is_space c ≡ true
unfolding is_space
newline_is_space c h = ground arith

space_is_no_letter : (c : Char) → is_space c ≡ true → is_letter (code c) ≡ false
unfolding is_space
space_is_no_letter c h = ground arith

-- What may stand behind a number: nothing, or a space.
abbrev Bordered : String → Type 0
Bordered []ˢ = Unit
Bordered (c ∷ˢ s) = is_space c ≡ true

border : (p : Bool) (s : String) → p && at_space s || at_end s ≡ true → Bordered s
border p []ˢ h = tt
border p (c ∷ˢ []ˢ) h = ground (arith, newline_is_space c)
border p (c ∷ˢ d ∷ˢ s) h = ground arith

letter_at_border : (s : String) → Bordered s → take_letter s ≡ ([]ˢ, s)
unfolding take_letter
letter_at_border []ˢ h = refl
letter_at_border (c ∷ˢ s) h = rw (space_is_no_letter c h) refl

some_inj : {f g : ChapterNumber} → some f ≡ some g → f ≡ g
some_inj {f} e = ap (λ o. elim o [ none ↦ f | some h ↦ h ]) e

not_empty : (n : ℕ) (s : String) → decimal n ≡ s → is_empty s ≡ false
unfolding decimal
not_empty n []ˢ h =
    let zero' : 0 ≡ n = ap number (sym h) ∙ number-decimal n in
    let zero_text : decimal 0 ≡ []ˢ = rw (sym zero') at h in cc
not_empty n (c ∷ˢ s) h = refl

same_number :
    (n : ℕ) (f : ChapterNumber)
    → f.before ≡ []ˢ
    → ◌≡◌ {A = ChapterNumber}
        (record { number = value 0 (decimal n); letter = []ˢ; before = []ˢ; after = f.after })
        (record f { number = n; letter = []ˢ })
same_number n f h = rw (number-decimal n, h) refl

-- Where a new number goes: in the place of the old one, or behind the title.
abbrev pub placed : String → Option ChapterNumber → ℕ → ChapterNumber
placed title none n = record {
  number = n;
  letter = []ˢ;
  before = append title (" " ∷ˢ []ˢ);
  after = []ˢ;
}
placed title (some f) n = record f { number = n; letter = []ˢ }

module _ (digit_value : Char → Option ℕ) (t : Digits digit_value) where
  find_space :
      (prev : Option Char) (c : Char) (s : String)
      → is_space c ≡ true
      → match_at digit_value prev c s ≡ none
  unfolding match_at
  find_space prev c s h = rw (match_at, is_digit, t.no_space c h) refl

  -- Behind a number and a border, it does not matter what stood there.
  find_behind :
      (prev prev' : Option Char) (s : String)
      → Bordered s
      → find_from digit_value prev s ≡ find_from digit_value prev' s
  unfolding find_from
  find_behind prev prev' []ˢ h = refl
  find_behind prev prev' (c ∷ˢ s) h =
      ap
        (λ (o : Option ChapterNumber). elim (find_from digit_value (some c) s) [
          | none ↦ o
          | some f ↦ some (record f { before = c ∷ˢ f.before })
        ])
        (find_space prev c s h ∙ sym (find_space prev' c s h))

  take_digits-append :
      (m : ℕ) (ds s : String)
      → all_chars is_decimal ds ≡ true
      → Bordered s
      → take_digits digit_value m (append ds s) ≡ (value m ds, s)
  unfolding take_digits
  take_digits-append m []ˢ []ˢ h b = refl
  take_digits-append m []ˢ (c ∷ˢ s) h b = rw (t.no_space c b) refl
  take_digits-append m (d ∷ˢ ds) s h b =
      let first : is_decimal (code d) ≡ true = ground arith in
      rw (t.ascii d first) (take_digits-append (m * 10 + (code d - 48)) ds s (ground arith) b)

  digit_is : (c : Char) → is_decimal (code c) ≡ true → is_digit digit_value c ≡ true
  digit_is c h = rw (is_digit, t.ascii c h) refl

  -- No match starts inside a run.
  no_match_inside :
      (prev : Char) (ds s : String)
      → is_digit digit_value prev ≡ true
      → all_chars is_decimal ds ≡ true
      → ((p : Option Char) → find_from digit_value p s ≡ none)
      → find_from digit_value (some prev) (append ds s) ≡ none
  unfolding find_from match_at
  no_match_inside prev []ˢ s d h last = last (some prev)
  no_match_inside prev (c ∷ˢ ds) s d h last =
      let is = digit_is c (ground arith) in
      rw (find_from, no_match_inside c ds s is (ground arith) last, match_at, is, d) refl

  find_here :
      (prev : Option Char) (ds s : String)
      → behind_digit digit_value prev ≡ false
      → (is_empty ds ≡ false) × (all_chars is_decimal ds ≡ true)
      → behind_space prev && at_space s || at_end s ≡ true
      → ((p : Option Char) → find_from digit_value p s ≡ none)
      → find_from digit_value prev (append ds s)
        ≡ some (record { number = value 0 ds; letter = []ˢ; before = []ˢ; after = s })
  unfolding find_from match_at span_of
  find_here prev []ˢ s b d e last = cc
  find_here prev (c ∷ˢ ds) s b d e last =
      let is = digit_is c (ground (arith, d.1)) in
      let stands = border (behind_space prev) s e in
      let read = take_digits-append 0 (c ∷ˢ ds) s d.1 stands in
      rw
        (
          find_from,
          no_match_inside c ds s is (ground (arith, d.1)) last,
          match_at,
          is,
          b,
          read,
          span_of,
          letter_at_border s stands,
          e,
        )
        refl

  find_later :
      (p : Option Char) (c : Char) (s : String)
      → find_from digit_value p (c ∷ˢ s) ≡ none
      → find_from digit_value (some c) s ≡ none
  unfolding find_from
  find_later p c s h = elim (Option-cases (find_from digit_value (some c) s)) [
    | inl nothing ↦ nothing
    | inr (f, there) ↦ absurd (ground (arith, (rw (find_from, there) at h)))
  ]

  find_after_digits :
      (m : ℕ) (p : Option Char) (s : String)
      → find_from digit_value p s ≡ none
      → (q : Option Char) × (find_from digit_value q (take_digits digit_value m s).1 ≡ none)
  unfolding take_digits
  find_after_digits m p []ˢ h = (p, h)
  find_after_digits m p (c ∷ˢ s) h = elim (Option-cases (digit_value c)) [
    | inl other ↦ (p, rw (take_digits, other) h)
    | inr (d, is) ↦
        let (q, e) = find_after_digits (m * 10 + d) (some c) s (find_later p c s h) in
        (q, rw (take_digits, is) e)
  ]

  find_after_letter :
      (p : Option Char) (s : String)
      → find_from digit_value p s ≡ none
      → (q : Option Char) × (find_from digit_value q (take_letter s).1 ≡ none)
  unfolding take_letter
  find_after_letter p []ˢ h = (p, h)
  find_after_letter p (c ∷ˢ s) h = elim (Bool-cases (is_letter (code c))) [
    | inl letter ↦ (some c, rw letter (find_later p c s h))
    | inr other ↦ (p, rw other h)
  ]

  span_inv :
      (prev : Option Char) (n : ℕ) (rest : String) (f : ChapterNumber)
      → span_of prev (n, rest) ≡ some f
      → (f.before ≡ []ˢ)
        × (behind_space prev && at_space f.after || at_end f.after ≡ true)
        × (f.after ≡ (take_letter rest).1)
  unfolding span_of
  span_inv prev n rest f h =
      let after = (take_letter rest).1 in
      elim (Bool-cases (behind_space prev && at_space after || at_end after)) [
        | inr other ↦ absurd (ground (arith, (rw (span_of, other) at h)))
        | inl stands ↦
            let found : ChapterNumber = record {
              number = n;
              letter = (take_letter rest).0;
              before = []ˢ;
              after = after;
            } in
            let e : some found ≡ some f = rw (span_of, stands) at h in
            let same = some_inj e in
            (
              sym (ap (λ (g : ChapterNumber). g.before) same),
              subst
                  (λ (g : ChapterNumber).
                    behind_space prev && at_space g.after || at_end g.after ≡ true)
                  same stands,
              sym (ap (λ (g : ChapterNumber). g.after) same),
            )
      ]

  take_digits-cons :
      (m d : ℕ) (c : Char) (s : String)
      → digit_value c ≡ some d
      → take_digits digit_value m (c ∷ˢ s) ≡ take_digits digit_value (m * 10 + d) s
  unfolding take_digits
  take_digits-cons m d c s h = rw (take_digits, h) refl

  -- What a match says of the text.
  record Here (prev : Option Char) (c : Char) (s : String) (f : ChapterNumber) : Type 0 where
    outside : behind_digit digit_value prev ≡ false
    nothing_before : f.before ≡ []ˢ
    bordered : behind_space prev && at_space f.after || at_end f.after ≡ true
    last : (p : Option Char) → find_from digit_value p f.after ≡ none

  match-Here :
      (prev : Option Char) (c : Char) (s : String) (f : ChapterNumber)
      → find_from digit_value (some c) s ≡ none
      → match_at digit_value prev c s ≡ some f
      → Here prev c s f
  unfolding match_at take_digits
  match-Here prev c s f none_later h = elim (Option-cases (digit_value c)) [
    | inl other ↦ absurd (ground (arith, (rw (match_at, is_digit, other) at h)))
    | inr (d, is) ↦ elim (Bool-cases (behind_digit digit_value prev)) [
      | inl inside ↦ absurd (ground (arith, (rw (match_at, is_digit, is, inside) at h)))
      | inr outside ↦
          let (q, e) = find_after_digits (0 * 10 + d) (some c) s none_later in
          let (q', e') = find_after_letter q (take_digits digit_value (0 * 10 + d) s).1 e in
          let h' : span_of prev (take_digits digit_value (0 * 10 + d) s) ≡ some f =
            rw (take_digits-cons 0 d c s is) at (rw (match_at, is_digit, is, outside) at h) in
          let (before, bordered, after) =
            span_inv prev (take_digits digit_value (0 * 10 + d) s).0
              (take_digits digit_value (0 * 10 + d) s).1 f h' in
          record {
            outside = outside;
            nothing_before = before;
            bordered = bordered;
            last = λ p.
                find_behind p q' f.after (border (behind_space prev) f.after bordered)
                ∙ rw (← after) at e';
          }
    ]
  ]

  decimal-stands :
      (n : ℕ) → (is_empty (decimal n) ≡ false) × (all_chars is_decimal (decimal n) ≡ true)
  decimal-stands n = (not_empty n (decimal n) refl, decimal-decimal n)

  -- A number in the place of the last one is the last one.
  find-replaced :
      (n : ℕ) (prev : Option Char) (s : String) (f : ChapterNumber)
      → find_from digit_value prev s ≡ some f
      → find_from digit_value prev (append f.before (append (decimal n) f.after))
        ≡ some (record f { number = n; letter = []ˢ })
  unfolding find_from
  find-replaced n prev []ˢ f h = cc
  find-replaced n prev (c ∷ˢ s) f h = elim (Option-cases (find_from digit_value (some c) s)) [
    | inl none_later ↦
        let here = match-Here prev c s f none_later (rw (find_from, none_later) at h) in
        let found =
          find_here prev (decimal n) f.after here.outside (decimal-stands n) here.bordered
            here.last in
        ap (λ (b : String). find_from digit_value prev (append b (append (decimal n) f.after)))
          here.nothing_before
        ∙ found
        ∙ ap some (same_number n f here.nothing_before)
    | inr (g, later) ↦
        let e : some (record g { before = c ∷ˢ g.before }) ≡ some f = rw (find_from, later) at h in
        let same = some_inj e in
        subst
          (λ (x : ChapterNumber).
            find_from digit_value prev (append x.before (append (decimal n) x.after))
            ≡ some (record x { number = n; letter = []ˢ }))
          same (rw (find_from, find-replaced n (some c) s g later) refl)
  ]

  find_prefix :
      (prev : Option Char) (s x : String) (f : ChapterNumber)
      → ((p : Option Char)
          → (behind_digit digit_value p ≡ false)
          → find_from digit_value p x ≡ some f)
      → find_from digit_value prev (append s (" " ∷ˢ x))
        ≡ some (record f { before = append s (" " ∷ˢ f.before) })
  unfolding find_from
  find_prefix prev []ˢ x f h =
      let gap : behind_digit digit_value (some " ") ≡ false =
        rw (is_digit, t.no_space " " space_is_space) refl in
      rw (find_from, h (some " ") gap) refl
  find_prefix prev (c ∷ˢ s) x f h = rw (find_from, find_prefix (some c) s x f h) refl

  found_at_end :
      (n : ℕ) (p : Option Char)
      → behind_digit digit_value p ≡ false
      → find_from digit_value p (decimal n)
        ≡ some (record { number = n; letter = []ˢ; before = []ˢ; after = []ˢ })
  unfolding find_from
  found_at_end n p outside =
      let stands : behind_space p && false || true ≡ true = ground arith in
      rw (append_nil, number-decimal) at
        (find_here p (decimal n) []ˢ outside (decimal-stands n) stands (λ q. refl))

  renumber-some :
      (title : String) (n : ℕ) (f : ChapterNumber)
      → find_chapter_number digit_value title ≡ some f
      → renumber_title digit_value title n ≡ append f.before (append (decimal n) f.after)
  unfolding renumber_title
  renumber-some title n f h = rw (renumber_title, h) refl

  renumber-none :
      (title : String) (n : ℕ)
      → find_chapter_number digit_value title ≡ none
      → renumber_title digit_value title n ≡ append title (append " " (decimal n))
  unfolding renumber_title
  renumber-none title n h = rw (renumber_title, h) refl

  -- A title with a new number has that number and no letter, in the place of the old number, or
  -- behind the title if it had none.
  pub find-renumber_title :
      (title : String) (n : ℕ)
      → find_chapter_number digit_value (renumber_title digit_value title n)
        ≡ some (placed title (find_chapter_number digit_value title) n)
  unfolding find_chapter_number
  find-renumber_title title n = elim (Option-cases (find_chapter_number digit_value title)) [
    | inr (f, there) ↦
        ap (find_chapter_number digit_value) (renumber-some title n f there)
        ∙ find-replaced n none title f there
        ∙ sym (ap (λ o. some (placed title o n)) there)
    | inl missing ↦
        ap (find_chapter_number digit_value) (renumber-none title n missing)
        ∙ find_prefix none title (decimal n) _ (found_at_end n)
        ∙ sym (ap (λ o. some (placed title o n)) missing)
  ]

  placed_again :
      (title : String) (m n : ℕ) (o : Option ChapterNumber)
      → find_chapter_number digit_value title ≡ o
      → append (placed title o m).before (append (decimal n) (placed title o m).after)
        ≡ renumber_title digit_value title n
  placed_again title m n (some f) h = sym (renumber-some title n f h)
  placed_again title m n none h =
      append_assoc title " " (append (decimal n) []ˢ)
      ∙ ap (λ (s : String). append title (" " ∷ˢ s)) (append_nil (decimal n))
      ∙ sym (renumber-none title n h)

  -- Only the last renumbering counts.
  pub renumber_title-renumber_title :
      (title : String) (m n : ℕ)
      → renumber_title digit_value (renumber_title digit_value title m) n
        ≡ renumber_title digit_value title n
  renumber_title-renumber_title title m n =
      renumber-some (renumber_title digit_value title m) n _ (find-renumber_title title m)
      ∙ placed_again title m n (find_chapter_number digit_value title) refl

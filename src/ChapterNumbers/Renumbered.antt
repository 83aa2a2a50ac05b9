-- ===== src/ChapterNumbers/Renumbered.antt =====
-- What a plan does to the titles, and a renumbering after a renumbering.
use dockb.Prelude.{
  ℕ, suc, String, ◌≡◌, refl, sym, ap, ◌∙◌, ◌↔◌, ◌⊎◌, inl, inr, Bool, true, false, Option, none,
  List, [], ◌∷◌, map, arith, ◌==◌, eq_iff, eq_refl, Bool-cases, if◌then◌else◌, keep_if, All,
}
use Prim.Native.Char.{Char}
use dockb.Prelude.Text.{has}
use dockb.Dict
use dockb.Dict.{Dict}
use dockb.ChapterNumbers.Plan.{
  Row, is_character, PlanError, duplicate_title, RenumberPlan, with_row, check_titles, retitled,
  retitle,
}
use dockb.ChapterNumbers.Planned.{
  ids, UniqueIds, is_numbered, has-keep_if, number_title, renumbered, planned,
}

-- No text stands twice.
abbrev pub Unique : List String → Type 0
Unique [] = Unit
Unique (x ∷ xs) = (has x xs ≡ false) × Unique xs

module _ (lower : String → String) where
  abbrev pub Clear : List String → List String → Type 0
  Clear seen ts = All (λ t. has (lower t) seen ≡ false) ts

  pub nothing_seen : (ts : List String) → Clear [] ts
  nothing_seen [] = tt
  nothing_seen (t ∷ ts) = (refl, nothing_seen ts)

  Clear-cons :
      (k : String) (seen ts : List String)
      → ((has k (map lower ts) ≡ false) × Clear seen ts) ↔ Clear (k ∷ seen) ts
  Clear-cons k seen [] = (λ h. tt, λ h. (refl, tt))
  Clear-cons k seen (t ∷ ts) = (
    λ h. (
      ground (arith, eq_iff k (lower t), eq_iff (lower t) k, h.1.0),
      (Clear-cons k seen ts).0 (ground (arith, h.0), h.1.1),
    ),
    λ h.
        let (rest, clear) = (Clear-cons k seen ts).1 h.1 in
        (
          ground (arith, eq_iff k (lower t), eq_iff (lower t) k, h.0, rest),
          (ground (arith, h.0), clear),
        ),
  )

  -- The check passes or names a title that stands before.
  abbrev pub Checked : List String → PlanError ⊎ (Unit {0}) → List String → Type 0
  Checked ts r seen =
      ((r ≡ inr tt) × Unique (map lower ts) × Clear seen ts)
      ⊎ ((t : String) × (r ≡ inl (duplicate_title t))
          × ((Unique (map lower ts) × Clear seen ts) → ⊥))

  pub check_titles_outcomes : (ts seen : List String) → Checked ts (check_titles lower seen ts) seen
  unfolding check_titles
  check_titles_outcomes [] seen = inl (refl, tt, tt)
  check_titles_outcomes (t ∷ ts) seen = elim (Bool-cases (has (lower t) seen)) [
    | inl twice ↦ inr (t, rw (check_titles, twice) refl, λ u. absurd (ground (arith, u.1.0, twice)))
    | inr once ↦ elim (check_titles_outcomes ts (lower t ∷ seen)) [
      | inl (ok, unique, clear) ↦
          let (apart, clear') = (Clear-cons (lower t) seen ts).1 clear in
          inl (rw (check_titles, once) ok, (apart, unique), (once, clear'))
      | inr (t', e, clash) ↦ inr (
        t',
        rw (check_titles, once) e,
        λ u. clash (u.0.1, (Clear-cons (lower t) seen ts).0 (u.0.0, u.1.1)),
      )
    ]
  ]

pub skip_character :
    (r : Row) (rs : List Row)
    → is_character r ≡ true
    → keep_if is_numbered (r ∷ rs) ≡ keep_if is_numbered rs
unfolding keep_if
skip_character r rs h = rw h refl

pub keep_chapter :
    (r : Row) (rs : List Row)
    → is_character r ≡ false
    → keep_if is_numbered (r ∷ rs) ≡ r ∷ keep_if is_numbered rs
unfolding keep_if
keep_chapter r rs h = rw h refl

kept_title : (r : Row) (t : String) → t ≡ r.title → ◌≡◌ {A = Row} r (record r { title = t })
kept_title r t h = ap (λ (x : String). record r { title = x }) (sym h)

module _ (digit_value : Char → Option ℕ) where
  get-planned :
      (id : String) (n : ℕ) (rs : List Row)
      → has id (ids rs) ≡ false
      → Dict.get id (planned digit_value n rs).entries ≡ none
  unfolding Dict.get
  get-planned id n [] h = refl
  get-planned id n (r ∷ rs) h = elim (Bool-cases (number_title digit_value n r == r.title)) [
    | inl same ↦ rw same (get-planned id (suc n) rs (ground (arith, h)))
    | inr other ↦
        let apart : (r.id == id) ≡ false = ground (arith, h) in
        rw (other, apart) (get-planned id (suc n) rs (ground (arith, h)))
  ]

  retitle-other :
      (id t : String) (e : Dict String) (rs : List Row)
      → has id (ids rs) ≡ false
      → retitle ((id, t) ∷ e) rs ≡ retitle e rs
  unfolding retitle Dict.get
  retitle-other id t e [] h = refl
  retitle-other id t e (r ∷ rs) h =
      let apart : (id == r.id) ≡ false = ground (arith, eq_iff id r.id, eq_iff r.id id, h) in
      rw apart
        (ap (◌∷◌ (retitled (Dict.get r.id e) r)) (retitle-other id t e rs (ground (arith, h))))

  retitle-step :
      (n : ℕ) (r : Row) (rs l : List Row)
      → has r.id (ids rs) ≡ false
      → has r.id (ids l) ≡ false
      → retitle (planned digit_value n (r ∷ l)).entries (r ∷ rs)
        ≡ record r { title = number_title digit_value n r }
          ∷ retitle (planned digit_value (suc n) l).entries rs
  unfolding retitle Dict.get
  retitle-step n r rs l once gone =
      let t = number_title digit_value n r in
      let rest = planned digit_value (suc n) l in
      let after = λ (p : RenumberPlan). retitle p.entries (r ∷ rs) in
      elim (Bool-cases (t == r.title)) [
        | inl same ↦
            ap (λ (b : Bool). after (if b then rest else with_row r t rest)) same
            ∙ ap (λ (o : Option String). retitled o r ∷ retitle rest.entries rs)
                (get-planned r.id (suc n) l gone)
            ∙ ap (λ (x : Row). x ∷ retitle rest.entries rs)
                (kept_title r t ((eq_iff t r.title).0 same))
        | inr other ↦
            ap (λ (b : Bool). after (if b then rest else with_row r t rest)) other
            ∙ rw (eq_refl r.id)
                (ap (◌∷◌ (record r { title = t })) (retitle-other r.id t rest.entries rs once))
      ]

  -- The entries of a plan retitle every row as its number says.
  pub retitle-planned :
      (n : ℕ) (rs : List Row)
      → UniqueIds rs
      → retitle (planned digit_value n (keep_if is_numbered rs)).entries rs
        ≡ renumbered digit_value n rs
  unfolding retitle
  retitle-planned n [] u = refl
  retitle-planned n (r ∷ rs) u =
      let l = keep_if is_numbered rs in
      let gone = has-keep_if r.id is_numbered rs u.0 in
      let after = λ (l : List Row). retitle (planned digit_value n l).entries (r ∷ rs) in
      elim (Bool-cases (is_character r)) [
        | inl person ↦
            ap after (skip_character r rs person)
            ∙ ap
                (λ (o : Option String). retitled o r ∷ retitle (planned digit_value n l).entries rs)
                (get-planned r.id n l gone)
            ∙ rw person (ap (◌∷◌ r) (retitle-planned n rs u.1))
        | inr chapter ↦
            ap after (keep_chapter r rs chapter)
            ∙ retitle-step n r rs l u.0 gone
            ∙ rw chapter (
                ap (◌∷◌ (record r { title = number_title digit_value n r }))
                  (retitle-planned (suc n) rs u.1))
      ]

-- ===== src/ChapterNumbers/Again.antt =====
-- A plan decides by the titles that it gives, and a renumbering after a renumbering does nothing.
use dockb.Prelude.{
  Bool, ℕ, suc, String, ◌≡◌, refl, sym, ap, ap₂, ◌∙◌, ◌⊎◌, inl, inr, true, Option, none, some, List,
  [], ◌∷◌, ◌++◌, map, arith, ◌==◌, eq_refl, Bool-cases, keep_if,
}
use mathlib.Core.Path.{subst}
use Prim.Native.Char.{Char}
use dockb.Dict
use dockb.Dict.{Dict}
use dockb.Renumber.{Tree, Mover}
use dockb.ChapterNumbers.{renumber_title}
use dockb.ChapterNumbers.Rewrite.{Digits, renumber_title-renumber_title}
use dockb.ChapterNumbers.Plan.{
  Row, is_character, PlanError, duplicate_title, RenumberPlan, nothing_planned, check_titles,
  plan_renumber, retitle, ◌>>=◌, is_nil, RenumberAnswer, refused, renamed, Book, renumber,
  move_files,
}
use dockb.ChapterNumbers.Planned.{
  ids, UniqueIds, is_numbered, number_title, renumbered, assigned, planned, final_titles,
  plan_renumber_lem,
}
use dockb.ChapterNumbers.Renumbered.{Unique, nothing_seen, check_titles_outcomes, retitle-planned}

-- The titles of a book, those of its characters last.
abbrev pub titles_in_order : List Row → List String
titles_in_order rs =
    map (λ (r : Row). r.title) (keep_if is_numbered rs)
    ++ map (λ (r : Row). r.title) (keep_if is_character rs)

module _ (digit_value : Char → Option ℕ) where
  ids-renumbered : (n : ℕ) (rs : List Row) → ids (renumbered digit_value n rs) ≡ ids rs
  ids-renumbered n [] = refl
  ids-renumbered n (r ∷ rs) = elim (Bool-cases (is_character r)) [
    | inl person ↦ rw person (ap (◌∷◌ r.id) (ids-renumbered n rs))
    | inr chapter ↦ rw chapter (ap (◌∷◌ r.id) (ids-renumbered (suc n) rs))
  ]

  UniqueIds-renumbered :
      (n : ℕ) (rs : List Row) → UniqueIds rs → UniqueIds (renumbered digit_value n rs)
  UniqueIds-renumbered n [] u = tt
  UniqueIds-renumbered n (r ∷ rs) u = elim (Bool-cases (is_character r)) [
    | inl person ↦ rw person (rw (ids-renumbered n rs) u.0, UniqueIds-renumbered n rs u.1)
    | inr chapter ↦
        rw chapter (rw (ids-renumbered (suc n) rs) u.0, UniqueIds-renumbered (suc n) rs u.1)
  ]

  -- chapters with their numbers
  abbrev given : ℕ → List Row → List Row
  given n [] = []
  given n (r ∷ rs) = record r { title = number_title digit_value n r } ∷ given (suc n) rs

  numbered-renumbered :
      (n : ℕ) (rs : List Row)
      → keep_if is_numbered (renumbered digit_value n rs) ≡ given n (keep_if is_numbered rs)
  unfolding keep_if
  numbered-renumbered n [] = refl
  numbered-renumbered n (r ∷ rs) = elim (Bool-cases (is_character r)) [
    | inl person ↦ rw person (rw person (numbered-renumbered n rs))
    | inr chapter ↦ rw chapter (
        rw chapter (
          ap (◌∷◌ (record r { title = number_title digit_value n r }))
            (numbered-renumbered (suc n) rs)))
  ]

  characters-renumbered :
      (n : ℕ) (rs : List Row)
      → keep_if is_character (renumbered digit_value n rs) ≡ keep_if is_character rs
  unfolding keep_if
  characters-renumbered n [] = refl
  characters-renumbered n (r ∷ rs) = elim (Bool-cases (is_character r)) [
    | inl person ↦ rw person (rw person (ap (◌∷◌ r) (characters-renumbered n rs)))
    | inr chapter ↦ rw chapter (rw chapter (characters-renumbered (suc n) rs))
  ]

  titles-given :
      (n : ℕ) (rs : List Row) → map (λ (r : Row). r.title) (given n rs) ≡ assigned digit_value n rs
  titles-given n [] = refl
  titles-given n (r ∷ rs) = ap (◌∷◌ (number_title digit_value n r)) (titles-given (suc n) rs)

  titles-renumbered :
      (lower : String → String) (start : ℕ) (rows : List Row)
      → final_titles lower digit_value start rows
        ≡ titles_in_order (renumbered digit_value start rows)
  titles-renumbered lower start rows =
      ap₂ (λ (a b : List String). a ++ b)
        (sym (titles-given start (keep_if is_numbered rows))
          ∙ sym (ap (map (λ (r : Row). r.title)) (numbered-renumbered start rows)))
        (sym (ap (map (λ (r : Row). r.title)) (characters-renumbered start rows)))

  module _ (t : Digits digit_value) where
    assigned-given :
        (n : ℕ) (rs : List Row) → assigned digit_value n (given n rs) ≡ assigned digit_value n rs
    assigned-given n [] = refl
    assigned-given n (r ∷ rs) =
        ap₂ (λ (a : String) (b : List String). a ∷ b)
          (renumber_title-renumber_title digit_value t r.title n n) (assigned-given (suc n) rs)

    planned-given : (n : ℕ) (rs : List Row) → planned digit_value n (given n rs) ≡ nothing_planned
    planned-given n [] = refl
    planned-given n (r ∷ rs) =
        let title = number_title digit_value n r in
        let same : (renumber_title digit_value title n == title) ≡ true =
          rw (renumber_title-renumber_title digit_value t r.title n n) (eq_refl title) in
        rw same (planned-given (suc n) rs)

retitle-nothing : (rs : List Row) → retitle [] rs ≡ rs
unfolding retitle Dict.get
retitle-nothing [] = refl
retitle-nothing (r ∷ rs) = ap (◌∷◌ r) (retitle-nothing rs)

nil_of : (e : Dict String) → is_nil e ≡ true → e ≡ []
nil_of [] h = refl
nil_of (x ∷ e) h = cc

module _ (lower : String → String) (digit_value : Char → Option ℕ) where
  abbrev pub lowered_titles : ℕ → List Row → List String
  lowered_titles start rows = map lower (titles_in_order (renumbered digit_value start rows))

  -- What a plan says, or why there is none.
  abbrev pub Outcome : ℕ → List Row → PlanError ⊎ RenumberPlan → Type 0
  Outcome start rows x =
      ((p : RenumberPlan) × (x ≡ inr p)
        × (retitle p.entries rows ≡ renumbered digit_value start rows)
        × Unique (lowered_titles start rows))
      ⊎ ((t : String) × (x ≡ inl (duplicate_title t)) × ¬ (Unique (lowered_titles start rows)))

  -- Where ids are unique, a plan is made exactly if the titles after it differ in lower case, and its
  -- entries give every chapter that is no character the next number, from the start on, and leave the
  -- other titles as they are; otherwise it is refused for a title.
  pub plan_renumber_outcomes :
      (rows : List Row) (start : ℕ)
      → UniqueIds rows
      → Outcome start rows (plan_renumber lower digit_value rows start)
  plan_renumber_outcomes rows start u =
      let lem = plan_renumber_lem lower digit_value rows start u in
      let titles = ap (map lower) (titles-renumbered digit_value lower start rows) in
      elim (check_titles_outcomes lower (final_titles lower digit_value start rows) []) [
        | inl (ok, unique, clear) ↦ inl (
          planned digit_value start (keep_if is_numbered rows),
          lem ∙ rw ok refl,
          retitle-planned digit_value start rows u,
          subst Unique titles unique,
        )
        | inr (t, e, clash) ↦ inr (
          t,
          lem ∙ rw e refl,
          λ unique. clash (
            subst Unique (sym titles) unique,
            nothing_seen lower (final_titles lower digit_value start rows),
          ),
        )
      ]

module _ (lower : String → String) (digit_value : Char → Option ℕ) (t : Digits digit_value) where
  final_titles-renumbered :
      (start : ℕ) (rows : List Row)
      → final_titles lower digit_value start (renumbered digit_value start rows)
        ≡ final_titles lower digit_value start rows
  final_titles-renumbered start rows =
      ap₂ (λ (a b : List String). a ++ b)
        (ap (assigned digit_value start) (numbered-renumbered digit_value start rows)
          ∙ assigned-given digit_value t start (keep_if is_numbered rows))
        (ap (map (λ (r : Row). r.title)) (characters-renumbered digit_value start rows))

  check_of_plan :
      (rows : List Row) (start : ℕ) (p : RenumberPlan)
      → UniqueIds rows
      → plan_renumber lower digit_value rows start ≡ inr p
      → check_titles lower [] (final_titles lower digit_value start rows) ≡ inr tt
  check_of_plan rows start p u h =
      elim (check_titles_outcomes lower (final_titles lower digit_value start rows) []) [
        | inl (ok, unique, clear) ↦ ok
        | inr (title, e, clash) ↦
            let refused : plan_renumber lower digit_value rows start ≡ inl (duplicate_title title) =
              plan_renumber_lem lower digit_value rows start u ∙ rw e refl in
            absurd (ground (arith, h, refused))
      ]

  -- A plan for the renumbered rows is empty.
  plan_again :
      (rows : List Row) (start : ℕ) (p : RenumberPlan)
      → UniqueIds rows
      → plan_renumber lower digit_value rows start ≡ inr p
      → plan_renumber lower digit_value (renumbered digit_value start rows) start
        ≡ inr nothing_planned
  plan_again rows start p u h =
      plan_renumber_lem lower digit_value (renumbered digit_value start rows) start
        (UniqueIds-renumbered digit_value start rows u)
      ∙ ap
          (λ (x : PlanError ⊎ (Unit {0})). x >>= λ v.
            inr
              (planned digit_value start (keep_if is_numbered (renumbered digit_value start rows))))
          (ap (check_titles lower []) (final_titles-renumbered start rows)
            ∙ check_of_plan rows start p u h)
      ∙ ap inr (
          ap (planned digit_value start) (numbered-renumbered digit_value start rows)
          ∙ planned-given digit_value t start (keep_if is_numbered rows))

  module _ (merge_title : String → String → Option String) (git_mv : Mover) (ensure_repo : Bool)
      (git_commit : Tree → Bool) where
    moved_rows :
        (p : RenumberPlan) (rows : List Row) (tree : Option Tree)
        → (a : RenumberAnswer) × (b : Book) × (move_files lower digit_value merge_title git_mv
              ensure_repo git_commit p rows tree
            ≡ (a, b))
          × (b.rows ≡ rows)
    moved_rows p rows none = (_, _, refl, refl)
    moved_rows p rows (some tree) = (_, _, refl, refl)

    idle :
        (start : ℕ) (b : Book) (p : RenumberPlan)
        → plan_renumber lower digit_value b.rows start ≡ inr p
        → is_nil p.entries ≡ true
        → renumber lower digit_value merge_title git_mv ensure_repo git_commit start (some b)
          ≡ (renamed [], some b)
    unfolding renumber
    idle start b p h none_left = rw (renumber, h, none_left) refl

    -- The book after a renumbering has the planned titles, and renumbering it again is idle.
    abbrev pub Settles : ℕ → Book → RenumberAnswer × Option Book → Type 0
    Settles start b x =
        (a : RenumberAnswer) × (after : Book) × (x ≡ (a, some after))
        × (after.rows ≡ renumbered digit_value start b.rows)
        × (renumber lower digit_value merge_title git_mv ensure_repo git_commit start (some after)
            ≡ (renamed [], some after))

    -- Where ids are unique, a renumbering is refused for a title and changes nothing, or the chapters
    -- then have their new titles, even if the store fails, and the next renumbering from the same
    -- start finds nothing to do.
    pub renumber-Settles :
        (start : ℕ) (b : Book)
        → UniqueIds b.rows
        → ((title : String) × (renumber lower digit_value merge_title git_mv ensure_repo git_commit
                start
                (some b)
              ≡ (refused (duplicate_title title), some b)))
          ⊎ Settles start b
              (renumber lower digit_value merge_title git_mv ensure_repo git_commit start (some b))
    unfolding renumber
    renumber-Settles start b u = elim (plan_renumber_outcomes lower digit_value b.rows start u) [
      | inr (title, e, clash) ↦ inl (title, rw (renumber, e) refl)
      | inl (p, e, titles, unique) ↦ elim (Bool-cases (is_nil p.entries)) [
        | inl none_left ↦
            let same : b.rows ≡ renumbered digit_value start b.rows =
              sym (retitle-nothing b.rows)
              ∙ sym (ap (λ (d : Dict String). retitle d b.rows) (nil_of p.entries none_left))
              ∙ titles in
            let still = idle start b p e none_left in inr (renamed [], b, still, same, still)
        | inr more ↦
            let (a, after, moved, rows) = moved_rows p (retitle p.entries b.rows) b.tree in
            let result : after.rows ≡ renumbered digit_value start b.rows = rows ∙ titles in
            inr (
              a,
              after,
              rw (renumber, e, more) (ap (λ (x : RenumberAnswer × Book). (x.0, some x.1)) moved),
              result,
              idle start after nothing_planned
                  (ap (λ (rs : List Row). plan_renumber lower digit_value rs start) result
                    ∙ plan_again b.rows start p u e)
                  refl,
            )
      ]
    ]

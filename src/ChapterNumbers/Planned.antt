-- ===== src/ChapterNumbers/Planned.antt =====
-- What a plan is, and what carrying it out leaves.
use dockb.Prelude.{
  ℕ, suc, String, ◌≡◌, refl, ◌∙◌, inl, inr, Bool, false, not, Option, some, List, [], ◌∷◌, ◌++◌,
  map, arith, ◌==◌, Bool-cases, if◌then◌else◌, keep_if,
}
use Prim.Native.Char.{Char}
use dockb.Prelude.Text.{has}
use dockb.Dict
use dockb.Dict.{Dict, get-set}
use dockb.ChapterNumbers.{renumber_title}
use dockb.ChapterNumbers.Plan.{
  Row, is_character, RenumberPlan, with_row, nothing_planned, title_of, titles_of, plan_rows,
  check_titles, new_titles, plan_renumber, ◌>>=◌,
}

abbrev pub ids : List Row → List String
ids [] = []
ids (r ∷ rs) = r.id ∷ ids rs

abbrev pub UniqueIds : List Row → Type 0
UniqueIds [] = Unit
UniqueIds (r ∷ rs) = (has r.id (ids rs) ≡ false) × UniqueIds rs

abbrev pub is_numbered : Row → Bool
is_numbered r = not (is_character r)

pub has-keep_if :
    (k : String) (p : Row → Bool) (rs : List Row)
    → has k (ids rs) ≡ false
    → has k (ids (keep_if p rs)) ≡ false
unfolding keep_if
has-keep_if k p [] h = refl
has-keep_if k p (r ∷ rs) h = elim (Bool-cases (p r)) [
  | inl stays ↦ rw stays (ground (arith, h, has-keep_if k p rs (ground arith)))
  | inr goes ↦ rw goes (has-keep_if k p rs (ground arith))
]

pub UniqueIds-keep_if : (p : Row → Bool) (rs : List Row) → UniqueIds rs → UniqueIds (keep_if p rs)
unfolding keep_if
UniqueIds-keep_if p [] u = tt
UniqueIds-keep_if p (r ∷ rs) u = elim (Bool-cases (p r)) [
  | inl stays ↦ rw stays (has-keep_if r.id p rs u.0, UniqueIds-keep_if p rs u.1)
  | inr goes ↦ rw goes (UniqueIds-keep_if p rs u.1)
]

module _ (digit_value : Char → Option ℕ) where
  abbrev pub number_title : ℕ → Row → String
  number_title n r = renumber_title digit_value r.title n

  -- The rows with their numbers, counted over the chapters that are no characters.
  abbrev pub renumbered : ℕ → List Row → List Row
  renumbered n [] = []
  renumbered n (r ∷ rs) =
      if is_character r
      then r ∷ renumbered n rs
      else record r { title = renumber_title digit_value r.title n } ∷ renumbered (suc n) rs

  abbrev pub assigned : ℕ → List Row → List String
  assigned n [] = []
  assigned n (r ∷ rs) = number_title n r ∷ assigned (suc n) rs

  abbrev pub planned : ℕ → List Row → RenumberPlan
  planned n [] = nothing_planned
  planned n (r ∷ rs) =
      if number_title n r == r.title
      then planned (suc n) rs
      else with_row r (number_title n r) (planned (suc n) rs)

  -- The dict has the new title of every row.
  abbrev Holds : Dict String → ℕ → List Row → Type 0
  Holds d n [] = Unit
  Holds d n (r ∷ rs) = (Dict.get r.id d ≡ some (number_title n r)) × Holds d (suc n) rs

  get-new_titles :
      (id : String) (n : ℕ) (rs : List Row) (d : Dict String)
      → has id (ids rs) ≡ false
      → Dict.get id (new_titles digit_value n rs d) ≡ Dict.get id d
  unfolding new_titles
  get-new_titles id n [] d h = refl
  get-new_titles id n (r ∷ rs) d h =
      let other : (r.id == id) ≡ false = ground arith in
      get-new_titles id (suc n) rs (Dict.set r.id (number_title n r) d) (ground arith)
      ∙ get-set r.id id (number_title n r) d
      ∙ rw other refl

  Holds-new_titles :
      (n : ℕ) (rs : List Row) (d : Dict String)
      → UniqueIds rs
      → Holds (new_titles digit_value n rs d) n rs
  unfolding new_titles
  Holds-new_titles n [] d u = tt
  Holds-new_titles n (r ∷ rs) d u = (
    get-new_titles r.id (suc n) rs (Dict.set r.id (number_title n r) d) u.0
        ∙ Dict.get-set_self r.id (number_title n r) d,
    Holds-new_titles (suc n) rs (Dict.set r.id (number_title n r) d) u.1,
  )

  titles_of-assigned :
      (d : Dict String) (n : ℕ) (rs : List Row)
      → Holds d n rs
      → titles_of d rs ≡ inr (assigned n rs)
  unfolding titles_of
  titles_of-assigned d n [] h = refl
  titles_of-assigned d n (r ∷ rs) h =
      rw (titles_of, title_of, h.0, titles_of-assigned d (suc n) rs h.1) refl

  plan_rows-planned :
      (d : Dict String) (n : ℕ) (rs : List Row) → Holds d n rs → plan_rows d rs ≡ inr (planned n rs)
  unfolding plan_rows
  plan_rows-planned d n [] h = refl
  plan_rows-planned d n (r ∷ rs) h =
      rw (plan_rows, title_of, h.0, plan_rows-planned d (suc n) rs h.1)
        (elim (Bool-cases (number_title n r == r.title)) [
          | inl same ↦ rw same refl
          | inr other ↦ rw other refl
        ])

module _ (lower : String → String) (digit_value : Char → Option ℕ) where
  abbrev pub numbered : List Row → List Row
  numbered rows = keep_if is_numbered rows

  abbrev pub final_titles : ℕ → List Row → List String
  final_titles start rows =
      assigned digit_value start (numbered rows)
      ++ map (λ (r : Row). r.title) (keep_if is_character rows)

  pub plan_renumber_lem :
      (rows : List Row) (start : ℕ)
      → UniqueIds rows
      → plan_renumber lower digit_value rows start ≡ (
          check_titles lower [] (final_titles start rows) >>= λ u.
          inr (planned digit_value start (numbered rows)))
  unfolding plan_renumber
  plan_renumber_lem rows start u =
      let holds =
        Holds-new_titles digit_value start (numbered rows) []
          (UniqueIds-keep_if is_numbered rows u) in
      rw
        (
          plan_renumber,
          titles_of-assigned digit_value (new_titles digit_value start (numbered rows) []) start
              (numbered rows) holds,
          plan_rows-planned digit_value (new_titles digit_value start (numbered rows) []) start
              (numbered rows) holds,
        )
        refl

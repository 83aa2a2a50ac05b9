-- ===== src/ChapterMove/Blocks.antt =====
-- A move against the blocks of chapters of one category.
use dockb.Prelude.{
  ℕ, suc, ◌≤◌, ◌<◌, String, ◌≡◌, refl, sym, ap, ◌∙◌, ◌⊎◌, inl, inr, Bool, false, not, Option, none,
  some, List, [], ◌∷◌, map, arith, ◌==◌, eq_iff, ltb, if◌then◌else◌, ltb→lt, Bool-cases, keep_if,
}
use dockb.Prelude.Text.{has}
use dockb.ChapterMove.{
  Row, row_category, without, at_id, is_other, first_other, crosses_category, category_mismatch,
  reordered, is_self, missing, remove, insert_id, new_order, same_order, adopted_act, move,
}

-- How often the category changes from a chapter to the next.
abbrev pub borders : List Row → ℕ
borders [] = 0
borders (r ∷ []) = 0
borders (r ∷ q ∷ rs) =
    if row_category r == row_category q then borders (q ∷ rs) else suc (borders (q ∷ rs))

-- The rows with the one that moves at its new place.
abbrev pub placed : Row → Option String → List Row → List Row
placed m none rs = m ∷ rs
placed m (some after) [] = []
placed m (some after) (r ∷ rs) = if r.id == after then r ∷ m ∷ rs else r ∷ placed m (some after) rs

abbrev crosses_in : Row → String → List Row → Bool
crosses_in m after rows = elim (at_id after rows) [
  | none ↦ false
  | some (r, following) ↦
      if row_category r == row_category m then false else is_other (row_category m) following
]

-- Behind its first row, a list with a row put in begins as it did.
borders_behind :
    (m r q : Row) (after : String) (rs : List Row)
    → borders (r ∷ placed m (some after) (q ∷ rs)) ≡ (
        if row_category r == row_category q
        then borders (placed m (some after) (q ∷ rs))
        else suc (borders (placed m (some after) (q ∷ rs))))
borders_behind m r q after rs = elim (Bool-cases (q.id == after)) [
  | inl here ↦ rw (placed, here) refl
  | inr later ↦ rw (placed, later) refl
]

borders_of_three :
    (a b m : String) (n : ℕ)
    → (if a == m then false else not (b == m))
      ≡ ltb
          (if a == b then n else suc n)
          (if a == m then (if m == b then n else suc n) else suc (if m == b then n else suc n))
borders_of_three a b m n = ground (arith, eq_iff a m, eq_iff a b, eq_iff m b, eq_iff b m)

ltb_step : (t : Bool) (x y : ℕ) → ltb x y ≡ ltb (if t then x else suc x) (if t then y else suc y)
ltb_step t x y = ground arith

crosses_iff :
    (m : Row) (after : String) (rows : List Row)
    → crosses_in m after rows ≡ ltb (borders rows) (borders (placed m (some after) rows))
unfolding at_id
crosses_iff m after [] = refl
crosses_iff m after (r ∷ []) = elim (Bool-cases (r.id == after)) [
  | inl here ↦
      rw (crosses_in, placed, at_id, here)
        (elim (Bool-cases (row_category r == row_category m)) [
          | inl same ↦ rw same refl
          | inr apart ↦ rw apart refl
        ])
  | inr later ↦ rw (crosses_in, placed, at_id, later) refl
]
crosses_iff m after (r ∷ q ∷ rs) = elim (Bool-cases (r.id == after)) [
  | inl here ↦
      rw (crosses_in, placed, at_id, here)
        (borders_of_three (row_category r) (row_category q) (row_category m) (borders (q ∷ rs)))
  | inr later ↦
      let ih = crosses_iff m after (q ∷ rs) in
      let step =
        ltb_step (row_category r == row_category q) (borders (q ∷ rs))
          (borders (placed m (some after) (q ∷ rs))) in
      let whole : borders (placed m (some after) (r ∷ q ∷ rs))
          ≡ borders (r ∷ placed m (some after) (q ∷ rs)) =
        ap borders {x = placed m (some after) (r ∷ q ∷ rs)} {y = r ∷ placed m (some after) (q ∷ rs)}
          (rw (placed, later) refl) in
      rw (crosses_in, at_id, later) ih
      ∙ step
      ∙ ap (ltb (borders (r ∷ q ∷ rs))) (sym (whole ∙ borders_behind m r q after rs))
]

first_iff :
    (m : Row) (rows : List Row)
    → first_other (row_category m) rows ≡ ltb (borders rows) (borders (m ∷ rows))
first_iff m [] = refl
first_iff m (r ∷ rows) =
    ground
      (arith, eq_iff (row_category r) (row_category m), eq_iff (row_category m) (row_category r))

-- A move crosses its category exactly if it adds a border between chapters of different categories.
crosses_category_iff :
    (members : List Row) (m : Row) (after : Option String)
    → crosses_category members m after
      ≡ ltb (borders (without m.id members)) (borders (placed m after (without m.id members)))
unfolding crosses_category
crosses_category_iff members m none = first_iff m (without m.id members)
crosses_category_iff members m (some after) = crosses_iff m after (without m.id members)

abbrev pub ids : List Row → List String
ids rs = map (λ r. r.id) rs

abbrev pub Unique : List Row → Type 0
Unique [] = Unit
Unique (r ∷ rs) = (has r.id (ids rs) ≡ false) × Unique rs

without_none : (id : String) (rs : List Row) → has id (ids rs) ≡ false → without id rs ≡ rs
unfolding keep_if
without_none id [] h = refl
without_none id (r ∷ rs) h =
    let other : (r.id == id) ≡ false = ground arith in
    rw other (ap (λ (l : List Row). r ∷ l) (without_none id rs (ground arith)))

remove-without :
    (id : String) (rs : List Row) → Unique rs → remove id (ids rs) ≡ ids (without id rs)
unfolding remove keep_if
remove-without id [] u = refl
remove-without id (r ∷ rs) u = elim (Bool-cases (r.id == id)) [
  | inl same ↦
      let e : r.id ≡ id = (eq_iff r.id id).0 same in
      let gone : has id (ids rs) ≡ false = rw e at u.0 in
      rw same (ap ids (sym (without_none id rs gone)))
  | inr other ↦ rw other (ap (λ (l : List String). r.id ∷ l) (remove-without id rs u.1))
]

insert_id-placed :
    (m : Row) (after : String) (rs : List Row)
    → insert_id after m.id (ids rs) ≡ ids (placed m (some after) rs)
unfolding insert_id
insert_id-placed m after [] = refl
insert_id-placed m after (r ∷ rs) = elim (Bool-cases (r.id == after)) [
  | inl here ↦ rw here refl
  | inr later ↦ rw later (ap (λ (l : List String). r.id ∷ l) (insert_id-placed m after rs))
]

new_order-placed :
    (m : Row) (after : Option String) (rs : List Row)
    → Unique rs
    → new_order rs m.id after ≡ ids (placed m after (without m.id rs))
unfolding new_order
new_order-placed m none rs u = ap (λ (l : List String). m.id ∷ l) (remove-without m.id rs u)
new_order-placed m (some after) rs u =
    ap (insert_id after m.id) (remove-without m.id rs u)
    ∙ insert_id-placed m after (without m.id rs)

not_less : (a b : ℕ) → ltb a b ≡ false → b ≤ a
not_less a b h = ground arith

-- Where ids are unique, a move that is not behind itself, and behind a chapter of the document or
-- first, is refused and changes nothing if it would add a border between chapters of different
-- categories; otherwise it adds none, and the order after it has the chapter at its new place and
-- the others as they were.
pub move_outcomes :
    (members : List Row) (m : Row) (after : Option String)
    → Unique members
    → is_self m.id after ≡ false
    → missing after members ≡ false
    → ((borders (without m.id members) < borders (placed m after (without m.id members)))
        × (move members m after ≡ category_mismatch))
      ⊎ ((act : String) × (borders (placed m after (without m.id members))
            ≤ borders (without m.id members))
          × (move members m after ≡ reordered (ids (placed m after (without m.id members))) act))
unfolding move
move_outcomes members m after u other known =
    let rows = without m.id members in
    let iff = crosses_category_iff members m after in
    elim (Bool-cases (crosses_category members m after)) [
      | inl crosses ↦ inl (ltb→lt _ _ (sym iff ∙ crosses), rw (other, known, crosses) refl)
      | inr stays ↦
          let order = new_order-placed m after members u in
          elim (Bool-cases (same_order (new_order members m.id after) (ids members))) [
            | inl same ↦ inr (
              m.act,
              not_less _ _ (sym iff ∙ stays),
              rw (other, known, stays, same) (ap (λ o. reordered o m.act) order),
            )
            | inr changed ↦ inr (
              adopted_act members m after,
              not_less _ _ (sym iff ∙ stays),
              rw (other, known, stays, changed)
                  (ap (λ o. reordered o (adopted_act members m after)) order),
            )
          ]
    ]

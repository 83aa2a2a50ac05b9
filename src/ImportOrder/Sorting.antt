-- ===== src/ImportOrder/Sorting.antt =====
-- Sorted lists, and lists of results.
use dockb.Prelude.{
  String, ◌≡◌, refl, sym, ap, ap₂, ◌⊎◌, inl, inr, Bool, true, false, List, [], ◌∷◌, map, arith,
  eq_iff, Bool-cases, All,
}
use mathlib.Core.List.{Perm}
use mathlib.Core.List.Perm
use Prim.Native.Char.{Char, code}
use Prim.Native.String.{[] as []ˢ, ◌∷◌ as ◌∷ˢ◌}
use text.Mathlib.TextEquality.{Char-path}
use dockb.ImportOrder.{
  OrderError, Key, le_text, le_key, insert_sorted, sort, all_results, le_file, File,
}

le_text_total : (s t : String) → le_text s t ≡ false → le_text t s ≡ true
le_text_total []ˢ t h = cc
le_text_total (c ∷ˢ s) []ˢ h = refl
le_text_total (c ∷ˢ s) (d ∷ˢ t) h = ground (arith, le_text_total s t)

pub le_key_total : (k l : Key) → le_key k l ≡ false → le_key l k ≡ true
le_key_total (m, s) (n, t) h = ground (arith, le_text_total s t)

module _ {A : Type 0} (le : A → A → Bool) where
  -- the value is not after the head of the list
  abbrev pub Before : A → List A → Type 0
  Before x [] = Unit
  Before x (y ∷ ys) = le x y ≡ true

  abbrev pub Ascending : List A → Type 0
  Ascending [] = Unit
  Ascending (x ∷ xs) = Before x xs × Ascending xs

  insert_sorted-perm : (x : A) (l : List A) → Perm (insert_sorted le x l) (x ∷ l)
  unfolding insert_sorted
  insert_sorted-perm x [] = Perm.rfl
  insert_sorted-perm x (y ∷ ys) = elim (Bool-cases (le x y)) [
    | inl here ↦ rw here Perm.rfl
    | inr later ↦ rw later (Perm.trans (Perm.cons y (insert_sorted-perm x ys)) (Perm.swap x y ys))
  ]

  pub sort-perm : (l : List A) → Perm (sort le l) l
  unfolding sort
  sort-perm [] = Perm.rfl
  sort-perm (x ∷ xs) = Perm.trans (insert_sorted-perm x (sort le xs)) (Perm.cons x (sort-perm xs))

  All-insert_sorted :
      (P : A → Type 0) (x : A) (l : List A) → P x → All P l → All P (insert_sorted le x l)
  unfolding insert_sorted
  All-insert_sorted P x [] h hs = (h, hs)
  All-insert_sorted P x (y ∷ ys) h hs = elim (Bool-cases (le x y)) [
    | inl here ↦ rw here (h, hs)
    | inr later ↦ rw later (hs.0, All-insert_sorted P x ys h hs.1)
  ]

  pub All-sort : (P : A → Type 0) (l : List A) → All P l → All P (sort le l)
  unfolding sort
  All-sort P [] h = h
  All-sort P (x ∷ xs) h = All-insert_sorted P x (sort le xs) h.0 (All-sort P xs h.1)

  module _ (total : (x y : A) → le x y ≡ false → le y x ≡ true) where
    Before-insert_sorted :
        (y x : A) (l : List A) → le y x ≡ true → Before y l → Before y (insert_sorted le x l)
    unfolding insert_sorted
    Before-insert_sorted y x [] h b = h
    Before-insert_sorted y x (z ∷ zs) h b = elim (Bool-cases (le x z)) [
      | inl here ↦ rw here h
      | inr later ↦ rw later b
    ]

    insert_sorted-Ascending : (x : A) (l : List A) → Ascending l → Ascending (insert_sorted le x l)
    unfolding insert_sorted
    insert_sorted-Ascending x [] h = (tt, tt)
    insert_sorted-Ascending x (y ∷ ys) h = elim (Bool-cases (le x y)) [
      | inl here ↦ rw here (here, h)
      | inr later ↦
          rw later
            (Before-insert_sorted y x ys (total x y later) h.0, insert_sorted-Ascending x ys h.1)
    ]

    pub sort-Ascending : (l : List A) → Ascending (sort le l)
    unfolding sort
    sort-Ascending [] = tt
    sort-Ascending (x ∷ xs) = insert_sorted-Ascending x (sort le xs) (sort-Ascending xs)

pub result_cases :
    {B : Type 0} (r : OrderError ⊎ B) → ((e : OrderError) × (r ≡ inl e)) ⊎ ((b : B) × (r ≡ inr b))
result_cases (inl e) = inl (e, refl)
result_cases (inr b) = inr (b, refl)

-- The results are those of the entries, in their order.
abbrev pub Results :
    {A B : Type 0} → (A → OrderError ⊎ B) → List A → OrderError ⊎ List (B × A) → Type 0
Results f xs (inl e) = Unit
Results {A} {B} f xs (inr ys) =
    (map (λ (p : B × A). p.1) ys ≡ xs) × All (λ (p : B × A). f p.1 ≡ inr p.0) ys

pub all_results-Results :
    {A B : Type 0} (f : A → OrderError ⊎ B) (xs : List A) → Results f xs (all_results f xs)
unfolding all_results
all_results-Results f [] = (refl, tt)
all_results-Results {A} {B} f (x ∷ xs) = elim (result_cases (f x)) [
  | inl (e, fails) ↦ rw (all_results, fails) tt
  | inr (y, first) ↦ elim (result_cases (all_results f xs)) [
    | inl (e, fails) ↦ rw (all_results, first, fails) tt
    | inr (ys, rest) ↦
        let (same, hold) : Results f xs (inr ys) = rw rest at (all_results-Results f xs) in
        rw (all_results, first, rest) (ap (λ (l : List A). x ∷ l) same, (first, hold))
  ]
]

le_text_same : (s t : String) → le_text s t ≡ true → le_text t s ≡ true → s ≡ t
le_text_same []ˢ []ˢ h k = refl
le_text_same []ˢ (d ∷ˢ t) h k = cc
le_text_same (c ∷ˢ s) []ˢ h k = cc
le_text_same (c ∷ˢ s) (d ∷ˢ t) h k =
    let same : code c ≡ code d = ground arith in
    ap₂ (λ (x : Char) (y : String). x ∷ˢ y) (Char-path c d same)
      (le_text_same s t (ground arith) (ground arith))

pub le_file_total : (f g : File) → le_file f g ≡ false → le_file g f ≡ true
le_file_total f g h = elim (Bool-cases (le_text f.name g.name)) [
  | inr after ↦ ground (arith, after)
  | inl before ↦
      let same = le_text_same f.name g.name before (ground (arith, h)) in
      let there = (eq_iff f.name g.name).1 same in
      let back = (eq_iff g.name f.name).1 (sym same) in
      let paths = le_text_total f.path g.path (ground (arith, h, there)) in
      ground (arith, back, paths)
]

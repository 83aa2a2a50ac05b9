-- ===== src/Accounts/Rows.antt =====
-- Lists of rows: selection and uniqueness under INSERT and UPDATE.
use mathlib.Core.Option
use dockb.Prelude.{
  String, ◌≡◌, refl, ap, ◌∙◌, ◌↔◌, inl, inr, Bool, true, false, not, ◌&&◌, ◌||◌, Option, none, some,
  List, [], ◌∷◌, ◌++◌, arith, ◌==◌, eq_iff, eq_refl, if◌then◌else◌, Bool-cases, any_of, find_first,
}
use dockb.Accounts.{User, update_where, same_text, identified}

pub same_text-none : (a : Option String) → same_text a none ≡ false
same_text-none none = refl
same_text-none (some a) = refl

pub same_text_sym : (a b : Option String) → same_text a b ≡ same_text b a
same_text_sym none none = refl
same_text_sym none (some b) = refl
same_text_sym (some a) none = refl
same_text_sym (some a) (some b) = ground (arith, eq_iff a b, eq_iff b a)

pub any_of-append :
    (p : User → Bool) (us vs : List User) → any_of p (us ++ vs) ≡ any_of p us || any_of p vs
any_of-append p [] vs = refl
any_of-append p (u ∷ us) vs = ground (arith, any_of-append p us vs)

-- A test that the UPDATE does not touch.
pub any_of-update_where :
    (p q : User → Bool) (f : User → User) (us : List User)
    → ((u : User) → p (f u) ≡ p u)
    → any_of p (update_where q f us) ≡ any_of p us
unfolding update_where
any_of-update_where p q f [] h = refl
any_of-update_where p q f (u ∷ us) h = ground (arith, h u, any_of-update_where p q f us h)

pub find_first-update_where :
    (p q : User → Bool) (f : User → User) (us : List User)
    → ((u : User) → p (f u) ≡ p u)
    → find_first p (update_where q f us)
      ≡ Option.map (λ u. if q u then f u else u) (find_first p us)
unfolding update_where find_first
find_first-update_where p q f [] h = refl
find_first-update_where p q f (u ∷ us) h = ground (arith, h u, find_first-update_where p q f us h)

pub find_first_holds :
    (p : User → Bool) (us : List User) (u : User) → find_first p us ≡ some u → p u ≡ true
unfolding find_first
find_first_holds p [] u h = cc
find_first_holds p (v ∷ us) u h = elim (Bool-cases (p v)) [
  | inl hit ↦ let same : v ≡ u = ground arith in rw (← same) hit
  | inr miss ↦ find_first_holds p us u (rw miss at h)
]

pub find_first-none_iff :
    (p : User → Bool) (us : List User) → (find_first p us ≡ none) ↔ (any_of p us ≡ false)
unfolding find_first
find_first-none_iff p [] = (λ h. refl, λ h. refl)
find_first-none_iff p (u ∷ us) =
    let ih = find_first-none_iff p us in (λ h. ground (arith, ih.0), λ h. ground (arith, ih.1))

-- The first hit of a list, or else the row that an INSERT appends.
abbrev pub or_last : (User → Bool) → User → Option User → Option User
or_last p v none = if p v then some v else none
or_last p v (some u) = some u

pub find_first-append :
    (p : User → Bool) (us : List User) (v : User)
    → find_first p (us ++ v ∷ []) ≡ or_last p v (find_first p us)
unfolding find_first
find_first-append p [] v = ground arith
find_first-append p (u ∷ us) v = ground (arith, find_first-append p us v)

-- The column `κ` is unique, NULLs aside.
abbrev pub Distinct : (User → Option String) → List User → Type 0
Distinct κ [] = Unit {0}
Distinct κ (u ∷ us) = (any_of (λ v. same_text (κ v) (κ u)) us ≡ false) × Distinct κ us

pub Distinct-append :
    (κ : User → Option String) (us : List User) (w : User)
    → Distinct κ us
    → any_of (λ v. same_text (κ v) (κ w)) us ≡ false
    → Distinct κ (us ++ w ∷ [])
Distinct-append κ [] w d h = (refl, tt)
Distinct-append κ (u ∷ us) w d h = (
  ground (arith, any_of-append (λ v. same_text (κ v) (κ u)) us (w ∷ []), same_text_sym (κ u) (κ w)),
  Distinct-append κ us w d.1 (ground arith),
)

if_keeps :
    (κ : User → Option String) (b : Bool) (f : User → User) (u : User)
    → κ (f u) ≡ κ u
    → κ (if b then f u else u) ≡ κ u
if_keeps κ true f u h = h
if_keeps κ false f u h = refl

-- An UPDATE that leaves the column alone.
pub Distinct-update_where :
    (κ : User → Option String) (q : User → Bool) (f : User → User) (us : List User)
    → ((u : User) → κ (f u) ≡ κ u)
    → Distinct κ us
    → Distinct κ (update_where q f us)
unfolding update_where
Distinct-update_where κ q f [] h d = tt
Distinct-update_where κ q f (u ∷ us) h d =
    let kept : κ (if q u then f u else u) ≡ κ u = if_keeps κ (q u) f u (h u) in
    (
      rw kept (
          any_of-update_where (λ v. same_text (κ v) (κ u)) q f us
            (λ v. ap (λ a. same_text a (κ u)) (h v))
          ∙ d.0),
      Distinct-update_where κ q f us h d.1,
    )

-- An UPDATE of the row `id` that writes `c` into the column, where no other row has `c`.
pub any_of-update_id :
    (κ : User → Option String) (id : String) (f : User → User) (c k : Option String)
    (us : List User)
    → ((u : User) → κ (f u) ≡ c)
    → same_text c k ≡ false
    → any_of (λ v. same_text (κ v) k) us ≡ false
    → any_of (λ v. same_text (κ v) k) (update_where (identified id) f us) ≡ false
unfolding update_where
any_of-update_id κ id f c k [] h ne d = refl
any_of-update_id κ id f c k (u ∷ us) h ne d =
    ground (arith, h u, any_of-update_id κ id f c k us h ne)

-- No row has the id: the UPDATE does nothing.
pub update_where_absent :
    (q : User → Bool) (f : User → User) (us : List User)
    → any_of q us ≡ false
    → update_where q f us ≡ us
unfolding update_where
update_where_absent q f [] h = refl
update_where_absent q f (u ∷ us) h = ground (arith, update_where_absent q f us)

others-false :
    (κ : User → Option String) (id : String) (c : Option String) (us : List User)
    → any_of (identified id) us ≡ false
    → any_of (λ v. same_text (κ v) c && not (identified id v)) us ≡ false
    → any_of (λ v. same_text (κ v) c) us ≡ false
others-false κ id c [] h d = refl
others-false κ id c (u ∷ us) h d = ground (arith, others-false κ id c us)

-- The UPDATE of one row keeps the column unique.
pub Distinct-update_id :
    (κ : User → Option String) (id : String) (f : User → User) (c : Option String) (us : List User)
    → ((u : User) → κ (f u) ≡ c)
    → any_of (λ v. same_text (κ v) c && not (identified id v)) us ≡ false
    → Distinct (λ u. some u.id) us
    → Distinct κ us
    → Distinct κ (update_where (identified id) f us)
unfolding update_where
Distinct-update_id κ id f c [] h free ids d = tt
Distinct-update_id κ id f c (u ∷ us) h free ids d = elim (Bool-cases (identified id u)) [
  | inl here ↦
      let same : u.id ≡ id = (eq_iff u.id id).0 here in
      let gone : any_of (identified id) us ≡ false = rw same at (ids.0) in
      rw (here, update_where_absent (identified id) f us gone, h u)
        (others-false κ id c us gone (ground arith), d.1)
  | inr there ↦
      let apart : same_text c (κ u) ≡ false = ground (arith, same_text_sym c (κ u)) in
      rw there (
        any_of-update_id κ id f c (κ u) us h apart d.0,
        Distinct-update_id κ id f c us h (ground arith) ids.1 d.1,
      )
]

-- The UPDATE of the row `u` keeps a test that holds somewhere, if it keeps it at `u`.
pub any_of-update_row :
    (p : User → Bool) (f : User → User) (u : User) (us : List User)
    → Distinct (λ w. some w.id) us
    → find_first (identified u.id) us ≡ some u
    → (p u ≡ true → p (f u) ≡ true)
    → any_of p us ≡ true
    → any_of p (update_where (identified u.id) f us) ≡ true
unfolding update_where find_first
any_of-update_row p f u [] ids found keep h = cc
any_of-update_row p f u (w ∷ us) ids found keep h = elim (Bool-cases (identified u.id w)) [
  | inl here ↦
      let same : w ≡ u = ground arith in
      let gone : any_of (identified u.id) us ≡ false = rw ((eq_iff w.id u.id).0 here) at (ids.0) in
      rw (here, update_where_absent (identified u.id) f us gone, same)
        (ground (arith, keep, ap p same))
  | inr there ↦ rw there (ground (arith, any_of-update_row p f u us ids.1 (rw there at found) keep))
]

pub any_of_found_id :
    (p : User → Bool) (us : List User) (u : User)
    → find_first p us ≡ some u
    → any_of (identified u.id) us ≡ true
unfolding find_first
any_of_found_id p [] u h = cc
any_of_found_id p (w ∷ us) u h = elim (Bool-cases (p w)) [
  | inl hit ↦
      let same : w ≡ u = ground arith in
      ground (arith, eq_refl u.id, ap (λ (x : User). x.id == u.id) same)
  | inr miss ↦ ground (arith, any_of_found_id p us u (rw miss at h))
]

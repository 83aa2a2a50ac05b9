-- ===== src/Dict.antt =====
-- Python's `dict` with text keys: an association list in insertion order. `set` writes an existing
-- key in its place and appends a new one.
use dockb.Prelude.{
  String, ◌≡◌, refl, Bool, true, false, not, ◌&&◌, ◌||◌, Option, none, some, List, [], ◌∷◌, arith,
  ◌==◌, eq_iff, eq_refl, if◌then◌else◌,
}

abbrev pub Dict {ℓ} : Type ℓ → Type ℓ
Dict V = List (String × V)

module _ {ℓ} {V : Type ℓ} where
  -- `d.get(k)`
  unfoldable pub get : String → Dict V → Option V
  get k [] = none
  get k ((j, v) ∷ d) = if j == k then some v else get k d

  -- `k in d`
  unfoldable pub member : String → Dict V → Bool
  member k [] = false
  member k ((j, v) ∷ d) = (j == k) || member k d

  -- `d[k] = v`
  unfoldable pub set : String → V → Dict V → Dict V
  set k v [] = (k, v) ∷ []
  set k v ((j, w) ∷ d) = if j == k then (j, v) ∷ d else (j, w) ∷ set k v d

  -- `d.pop(k, None)`
  unfoldable pub pop : String → Dict V → Dict V
  pop k [] = []
  pop k ((j, v) ∷ d) = let rest = pop k d in if j == k then rest else (j, v) ∷ rest

  pub get-set :
      (k j : String) (v : V) (d : Dict V) → get j (set k v d) ≡ (if k == j then some v else get j d)
  unfolding get set
  get-set k j v [] = refl
  get-set k j v ((i, w) ∷ d) = ground (arith, eq_iff k j, eq_iff i k, eq_iff i j, get-set k j v d)

  pub get-pop : (k j : String) (d : Dict V) → get j (pop k d) ≡ (if k == j then none else get j d)
  unfolding get pop
  get-pop k j [] = ground arith
  get-pop k j ((i, w) ∷ d) = ground (arith, eq_iff k j, eq_iff i k, eq_iff i j, get-pop k j d)

  pub get-set_self : (k : String) (v : V) (d : Dict V) → get k (set k v d) ≡ some v
  get-set_self k v d = ground (arith, get-set k k v d, eq_refl k)

  pub get-pop_self : (k : String) (d : Dict V) → get k (pop k d) ≡ none
  get-pop_self k d = ground (arith, get-pop k k d, eq_refl k)

  pub member-get : (k : String) (d : Dict V) → member k d ≡ false → get k d ≡ none
  unfolding member get
  member-get k [] h = refl
  member-get k ((j, v) ∷ d) h = ground (arith, member-get k d)

  pub member_of_get : (k : String) (d : Dict V) (v : V) → get k d ≡ some v → member k d ≡ true
  unfolding member get
  member_of_get k [] v h = ground arith
  member_of_get k ((j, w) ∷ d) v h = ground (arith, member_of_get k d v)

  pub member-set :
      (k j : String) (v : V) (d : Dict V) → member j (set k v d) ≡ (k == j) || member j d
  unfolding member set
  member-set k j v [] = refl
  member-set k j v ((i, w) ∷ d) =
      ground (arith, eq_iff k j, eq_iff i k, eq_iff i j, member-set k j v d)

  pub member-pop :
      (k j : String) (d : Dict V) → member j (pop k d) ≡ (if k == j then false else member j d)
  unfolding member pop
  member-pop k j [] = ground arith
  member-pop k j ((i, w) ∷ d) = ground (arith, eq_iff k j, eq_iff i k, eq_iff i j, member-pop k j d)

  -- No key stands twice.
  unfoldable pub unique_keys : Dict V → Bool
  unique_keys [] = true
  unique_keys ((j, v) ∷ d) = not (member j d) && unique_keys d

  pub unique_keys-set :
      (k : String) (v : V) (d : Dict V) → unique_keys d ≡ true → unique_keys (set k v d) ≡ true
  unfolding unique_keys member set
  unique_keys-set k v [] h = refl
  unique_keys-set k v ((j, w) ∷ d) h =
      ground (arith, eq_iff j k, eq_iff k j, unique_keys-set k v d, member-set k j v d)

  -- Behind the first entry of a dictionary, its key does not stand again.
  pub get_behind :
      (k j : String) (v : V) (d : Dict V)
      → unique_keys ((j, v) ∷ d) ≡ true
      → (j == k) ≡ true
      → get k d ≡ none
  unfolding unique_keys
  get_behind k j v d h same =
      let e : j ≡ k = (eq_iff j k).0 same in
      let once : member j d ≡ false = ground arith in member-get k d (rw e at once)

pub ruleset dict_laws = (get-set, get-pop)

-- ===== src/Mentions/Judge.antt =====
-- A whole paragraph: the verdicts and the characters that wait.
use dockb.Prelude.{
  ℕ, String, ◌≡◌, refl, ◌⊎◌, inl, inr, Bool, true, false, not, ◌||◌, Option, none, some, List, [],
  ◌∷◌, ◌++◌, map, arith, ◌==◌, eq_iff, eq_refl, if◌then◌else◌, Bool-cases, any_of,
}
use dockb.Prelude.Text.{has}
use dockb.Dict
use dockb.Dict.{Dict, get-set, unique_keys, get_behind}
use dockb.Mentions.{
  Token, Chapter, Entry, Judged, add_judged, Word, judge_sentences, by_id, settle, entries_of,
  name_set, name_entries, judge_paragraph,
}
use dockb.Mentions.Longest.{longest, claim}
use dockb.Mentions.Spots.{seen, all_spots, get-judge_sentences, judge_sentences_unique}

abbrev is_of : String → Entry → Bool
is_of id e = e.character.id == id

claim-owner :
    (id : String) (n : ℕ) (r : List Word) (es : List Entry)
    → any_of (is_of id) es ≡ false
    → claim id n r es ≡ none
unfolding claim
claim-owner id n r [] h = refl
claim-owner id n r (e ∷ es) h = ground (arith, claim-owner id n r es)

seen-owner :
    (id : String) (es : List Entry) (rs : List (List Word))
    → any_of (is_of id) es ≡ false
    → seen id es rs ≡ none
unfolding seen
seen-owner id es [] h = refl
seen-owner id es (r ∷ rs) h =
    ground (arith, claim-owner id (longest r es) r es h, seen-owner id es rs h)

abbrev is_named : String → Chapter → Bool
is_named id c = c.id == id

any_of-append :
    (p : Entry → Bool) (xs ys : List Entry) → any_of p (xs ++ ys) ≡ any_of p xs || any_of p ys
any_of-append p [] ys = refl
any_of-append p (x ∷ xs) ys = ground (arith, any_of-append p xs ys)

module _ (lower : String → String) (owners : Dict (List String)) where
  entries_of-owner :
      (id : String) (c : Chapter) (names : List String)
      → (c.id == id) ≡ false
      → any_of (is_of id) (entries_of lower owners c names) ≡ false
  unfolding entries_of
  entries_of-owner id c [] h = refl
  entries_of-owner id c (e ∷ es) h = ground (arith, entries_of-owner id c es h)

  name_entries-owner :
      (id : String) (cs : List Chapter)
      → any_of (is_named id) cs ≡ false
      → any_of (is_of id) (name_entries lower owners cs) ≡ false
  unfolding name_entries
  name_entries-owner id [] h = refl
  name_entries-owner id (c ∷ cs) h = ground (
    arith,
    any_of-append (is_of id) (entries_of lower owners c (name_set lower c))
        (name_entries lower owners cs),
    entries_of-owner id c (name_set lower c) (ground arith),
    name_entries-owner id cs,
  )

-- `by_id` has every character under its id.
abbrev Named : String → Dict Chapter → Type 0
Named id d = (c : Chapter) × (Dict.get id d ≡ some c) × (c.id ≡ id)

by_id-Named :
    (id : String) (cs : List Chapter) (d : Dict Chapter)
    → (any_of (is_named id) cs ≡ true) ⊎ Named id d
    → Named id (by_id cs d)
by_id-Named id [] d (inl h) = cc
by_id-Named id [] d (inr named) = named
by_id-Named id (c ∷ cs) d h =
    by_id-Named id cs (Dict.set c.id c d) (elim (Bool-cases (c.id == id)) [
      | inl same ↦ inr (c, ground (arith, get-set c.id id c d, same), (eq_iff c.id id).0 same)
      | inr other ↦ elim h [
        | inl later ↦ inl (ground (arith, later, other))
        | inr (b, there, e) ↦ inr (b, ground (arith, get-set c.id id c d, there, other), e)
      ]
    ])

abbrev pub is_settled : Option Bool → Bool
is_settled none = false
is_settled (some pending) = not pending

abbrev pub is_waiting : Option Bool → Bool
is_waiting none = false
is_waiting (some pending) = pending

-- Verdicts for the characters that are settled, and the characters that wait.
abbrev pub Settled : (String → Option Bool) → Judged → Type 0
Settled state none = ⊥
Settled state (some (verdicts, waiting)) =
    (id : String)
    → (has id (map (λ v. v.character_id) verdicts) ≡ is_settled (state id))
      × (has id (map (λ c. c.id) waiting) ≡ is_waiting (state id))

add_judged-Settled :
    (characters : Dict Chapter) (i : String) (pending : Bool) (state : String → Option Bool)
    (r : Judged)
    → Named i characters
    → state i ≡ none
    → Settled state r
    → Settled (λ id. if i == id then some pending else state id) (add_judged characters i pending r)
add_judged-Settled characters i pending state none named apart h = h
add_judged-Settled characters i true state (some (verdicts, waiting)) (c, there, e) apart h =
    rw there (λ id. elim (Bool-cases (i == id)) [
      | inl same ↦
          let here : state id ≡ none = rw ((eq_iff i id).0 same) at apart in
          (ground (arith, h id, same, here), ground (arith, h id, same, e))
      | inr other ↦ (ground (arith, h id, other), ground (arith, h id, other, e))
    ])
add_judged-Settled characters i false state (some (verdicts, waiting)) named apart h = λ id.
    elim (Bool-cases (i == id)) [
      | inl same ↦
          let here : state id ≡ none = rw ((eq_iff i id).0 same) at apart in
          (ground (arith, h id, same), ground (arith, h id, same, here))
      | inr other ↦ (ground (arith, h id, other), ground (arith, h id, other))
    ]

Settled-agree :
    (f g : String → Option Bool) (r : Judged)
    → ((id : String) → f id ≡ g id)
    → Settled f r
    → Settled g r
Settled-agree f g none e h = h
Settled-agree f g (some (verdicts, waiting)) e h = λ id. rw (← e id) (h id)

settle-Settled :
    (characters : Dict Chapter) (d : Dict Bool)
    → unique_keys d ≡ true
    → ((id : String) (b : Bool) → Dict.get id d ≡ some b → Named id characters)
    → Settled (λ id. Dict.get id d) (settle characters d)
unfolding settle Dict.get unique_keys
settle-Settled characters [] h f = λ id. (refl, refl)
settle-Settled characters ((i, pending) ∷ d) h f =
    let first : Named i characters = f i pending (ground (arith, eq_refl i)) in
    let rest = settle-Settled characters d (ground arith) (λ id b there.
      elim (Bool-cases (i == id)) [
        | inl same ↦ absurd (ground (arith, get_behind id i pending d h same, there))
        | inr other ↦ f id b (ground (arith, there, other))
      ]) in
    add_judged-Settled characters i pending (λ id. Dict.get id d) (settle characters d) first
      (get_behind i i pending d h (eq_refl i)) rest

-- Judging a paragraph raises no KeyError. A character gets a verdict exactly if it has a longest
-- name at some position that the reading stops at and at each such position one that the given owners
-- make its own, and it waits exactly if at one of them it has only others.
pub judge_paragraph-Settled :
    (lower : String → String) (sentences : List (List Token)) (characters : List Chapter)
    (owners : Dict (List String))
    → Settled
        (λ id.
          seen id
            (name_entries lower owners characters)
            (all_spots lower (name_entries lower owners characters) sentences))
        (judge_paragraph lower sentences characters owners)
unfolding judge_paragraph unique_keys Dict.get
judge_paragraph-Settled lower sentences characters owners =
    let es = name_entries lower owners characters in
    let d = judge_sentences lower es sentences [] in
    let e : (id : String) → Dict.get id d ≡ seen id es (all_spots lower es sentences) =
      λ id. get-judge_sentences lower id es sentences [] in
    Settled-agree (λ id. Dict.get id d) _ (judge_paragraph lower sentences characters owners) e
      (settle-Settled (by_id characters []) d (judge_sentences_unique lower es sentences [] refl)
        (λ id b there. elim (Bool-cases (any_of (is_named id) characters)) [
          | inl known ↦ by_id-Named id characters [] (inl known)
          | inr unknown ↦
              let nothing =
                seen-owner id es (all_spots lower es sentences)
                  (name_entries-owner lower owners id characters unknown) in
              absurd (ground (arith, e id, nothing, there))
        ]))

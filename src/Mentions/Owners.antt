-- ===== src/Mentions/Owners.antt =====
-- When a name counts as a character's own: the map of the owners against the names of the document.
use dockb.Prelude.{
  ℕ, suc, ◌+◌, String, ◌≡◌, refl, ap, ap₂, inl, inr, some, List, [], ◌∷◌, ◌++◌, map, arith, ◌==◌,
  eq_iff, leb, if◌then◌else◌, Bool-cases, length, length-append,
}
use dockb.Dict
use dockb.Dict.{Dict, get-set}
use dockb.Mentions.{
  Token, Chapter, Entry, judge_paragraph, is_nil, owners_of, name_set, entry_words, entry_key, own,
  ambiguity, entries_of, name_entries,
}
use dockb.Mentions.Spots.{seen, all_spots}
use dockb.Mentions.Judge.{Settled, judge_paragraph-Settled}

-- How often a text stands in a list.
unfoldable pub count : String → List String → ℕ
count k [] = 0
count k (j ∷ js) = let rest = count k js in if j == k then suc rest else rest

module _ (lower : String → String) where
  -- Every name of every character of a document, by its words.
  unfoldable pub keys_of : List Chapter → List String
  keys_of [] = []
  keys_of (c ∷ cs) =
      let rest = keys_of cs in
      if c.category == "Character" then map (entry_key lower) (name_set lower c) ++ rest else rest

  -- The names of a character; one is its own if no name of the document has the same words.
  unfoldable pub names_in : List Chapter → Chapter → List String → List Entry
  names_in document c [] = []
  names_in document c (e ∷ es) =
      let rest = names_in document c es in
      let words = entry_words lower e in
      if is_nil words
      then rest
      else record {
        words = words;
        character = c;
        unique = leb (count (entry_key lower e) (keys_of document)) 1;
      }
        ∷ rest

  unfoldable pub names_among : List Chapter → List Chapter → List Entry
  unfolding names_in
  names_among document [] = []
  names_among document (c ∷ cs) = names_in document c (name_set lower c) ++ names_among document cs

  count-append : (k : String) (xs ys : List String) → count k (xs ++ ys) ≡ count k xs + count k ys
  unfolding count
  count-append k [] ys = omega arith
  count-append k (x ∷ xs) ys = ground (arith, count-append k xs ys)

  owners-set :
      (k j id : String) (owners : Dict (List String))
      → length (owners_of k (Dict.set j (owners_of j owners ++ (id ∷ [])) owners))
        ≡ count k (j ∷ []) + length (owners_of k owners)
  unfolding count
  owners-set k j id owners =
      let ids = owners_of j owners ++ (id ∷ []) in
      let set' = get-set j k ids owners in
      elim (Bool-cases (j == k)) [
        | inl same ↦
            let got : Dict.get k (Dict.set j ids owners) ≡ some ids = ground (arith, set', same) in
            let more : length ids ≡ suc (length (owners_of j owners)) =
              omega (arith, length-append {0} (owners_of j owners) (id ∷ [])) in
            let here : length (owners_of j owners) ≡ length (owners_of k owners) =
              ap (λ (x : String). length (owners_of x owners)) ((eq_iff j k).0 same) in
            ground (arith, got, more, here, same)
        | inr other ↦
            let got : Dict.get k (Dict.set j ids owners) ≡ Dict.get k owners =
              ground (arith, set', other) in
            ground (arith, got, other)
      ]

  owners-own :
      (k id : String) (es : List String) (owners : Dict (List String))
      → length (owners_of k (own lower id es owners))
        ≡ count k (map (entry_key lower) es) + length (owners_of k owners)
  unfolding own count
  owners-own k id [] owners = omega arith
  owners-own k id (e ∷ es) owners =
      let j = entry_key lower e in
      let next = Dict.set j (owners_of j owners ++ (id ∷ [])) owners in
      ground (arith, owners-own k id es next, owners-set k j id owners)

  owners-ambiguity :
      (k : String) (cs : List Chapter) (owners : Dict (List String))
      → length (owners_of k (ambiguity lower cs owners))
        ≡ count k (keys_of cs) + length (owners_of k owners)
  unfolding ambiguity keys_of count
  owners-ambiguity k [] owners = omega arith
  owners-ambiguity k (c ∷ cs) owners = elim (Bool-cases (c.category == "Character")) [
    | inr other ↦ rw other (owners-ambiguity k cs owners)
    | inl cast ↦
        let names = name_set lower c in
        rw cast (
          omega (
            arith,
            owners-ambiguity k cs (own lower c.id names owners),
            owners-own k c.id names owners,
            count-append k (map (entry_key lower) names) (keys_of cs),
          ))
  ]

  entries_of-names :
      (document : List Chapter) (c : Chapter) (es : List String)
      → entries_of lower (ambiguity lower document []) c es ≡ names_in document c es
  unfolding entries_of names_in Dict.get
  entries_of-names document c [] = refl
  entries_of-names document c (e ∷ es) =
      let n : length (owners_of (entry_key lower e) (ambiguity lower document []))
          ≡ count (entry_key lower e) (keys_of document) =
        omega (arith, owners-ambiguity (entry_key lower e) document []) in
      rw (n, entries_of-names document c es) refl

  pub name_entries-names :
      (document cs : List Chapter)
      → name_entries lower (ambiguity lower document []) cs ≡ names_among document cs
  unfolding name_entries names_among
  name_entries-names document [] = refl
  name_entries-names document (c ∷ cs) =
      ap₂ ◌++◌ (entries_of-names document c (name_set lower c)) (name_entries-names document cs)

  -- Judging a paragraph raises no KeyError. Where a name is its own if no other name of a
  -- character of the document, of the same character neither, has the same words, a character gets
  -- a verdict exactly if it has a longest name at some position that the reading stops at and at
  -- each such position one that is its own, and it waits exactly if at one of them it has only
  -- shared ones.
  pub judge_paragraph-Settles :
      (sentences : List (List Token)) (document characters : List Chapter)
      → Settled
          (λ id.
            seen id
              (names_among document characters)
              (all_spots lower (names_among document characters) sentences))
          (judge_paragraph lower sentences characters (ambiguity lower document []))
  judge_paragraph-Settles sentences document characters =
      rw (name_entries-names document characters) at
        (judge_paragraph-Settled lower sentences characters (ambiguity lower document []))

-- ===== src/Mentions/Longest.antt =====
-- One position of a sentence: the entries that match there and are longest.
use dockb.Prelude.{
  ℕ, ◌<◌, max, String, ◌≡◌, refl, ap, ◌∙◌, ◌⊎◌, inl, inr, Bool, true, false, ◌&&◌, ◌||◌, Option,
  none, some, List, [], ◌∷◌, arith, ◌==◌, eq_iff, eq_refl, ltb, leb, eqb, if◌then◌else◌, Bool-cases,
  length,
}
use dockb.Dict
use dockb.Dict.{Dict, get-set}
use dockb.Mentions.{Entry, Word, take, spells, starts_proper, Best, flag, consider, find_best}

-- The entry stands at the front of the words, and its first word is a proper noun.
abbrev pub stands : List Word → Entry → Bool
stands rest e =
    let n = length e.words in
    leb n (length rest) && (spells e.words (take n rest) && starts_proper (take n rest))

-- The length of the longest entry that stands.
unfoldable pub longest : List Word → List Entry → ℕ
longest rest [] = 0
longest rest (e ∷ es) =
    let below = longest rest es in if stands rest e then max (length e.words) below else below

abbrev pub join : Option Bool → Option Bool → Option Bool
join none o = o
join (some b) none = some b
join (some b) (some c) = some (b || c)

-- Whether the character has an entry of that length that stands, and then whether one of them is its
-- own alone.
unfoldable pub claim : String → ℕ → List Word → List Entry → Option Bool
claim id n rest [] = none
claim id n rest (e ∷ es) =
    let below = claim id n rest es in
    if stands rest e && (eqb (length e.words) n && (e.character.id == id))
    then join (some e.unique) below
    else below

claim_beyond :
    (id : String) (n : ℕ) (rest : List Word) (es : List Entry)
    → longest rest es < n
    → claim id n rest es ≡ none
unfolding longest claim
claim_beyond id n rest [] h = refl
claim_beyond id n rest (e ∷ es) h = ground (arith, claim_beyond id n rest es)

abbrev next : String → List Word → Best → ℕ → List Entry → Option Bool
next id rest (best, winners) n es =
    if ltb best n then claim id n rest es else join (Dict.get id winners) (claim id best rest es)

join_assoc : (a b c : Option Bool) → join (join a b) c ≡ join a (join b c)
join_assoc none b c = refl
join_assoc (some a) none c = refl
join_assoc (some a) (some b) none = refl
join_assoc (some a) (some b) (some c) = ground arith

passed_over :
    (rest : List Word) (e : Entry) (b : Best)
    → stands rest e && leb b.0 (length e.words) ≡ false
    → consider rest e b ≡ b
unfolding consider
passed_over rest e (best, winners) h = ground arith

Nat-cases : (a b : ℕ) → (a < b) ⊎ ((a ≡ b) ⊎ (b < a))
Nat-cases a b = ground arith

tied :
    (rest : List Word) (e : Entry) (b : Best)
    → stands rest e ≡ true
    → length e.words ≡ b.0
    → consider rest e b ≡ (b.0, Dict.set e.character.id (flag e.character.id b.1 || e.unique) b.1)
unfolding consider
tied rest e (best, winners) h n = ground arith

longer :
    (rest : List Word) (e : Entry) (b : Best)
    → stands rest e ≡ true
    → b.0 < length e.words
    → consider rest e b ≡ (length e.words, (e.character.id, e.unique) ∷ [])
unfolding consider
longer rest e (best, winners) h n = ground arith

get_tied :
    (id i : String) (unique : Bool) (winners : Dict Bool)
    → Dict.get id (Dict.set i (flag i winners || unique) winners)
      ≡ (if i == id then join (Dict.get id winners) (some unique) else Dict.get id winners)
get_tied id i unique winners = elim (Bool-cases (i == id)) [
  | inl same ↦
      let e : i ≡ id = (eq_iff i id).0 same in
      rw e (ground (arith, get-set id id (flag id winners || unique) winners, eq_refl id))
  | inr other ↦ ground (arith, get-set i id (flag i winners || unique) winners, other)
]

claim_other :
    (id : String) (n : ℕ) (rest : List Word) (e : Entry) (es : List Entry)
    → eqb (length e.words) n ≡ false
    → claim id n rest (e ∷ es) ≡ claim id n rest es
unfolding claim
claim_other id n rest e es h = rw h (ground arith)

claim_same :
    (id : String) (n : ℕ) (rest : List Word) (e : Entry) (es : List Entry)
    → stands rest e ≡ true
    → length e.words ≡ n
    → claim id n rest (e ∷ es) ≡ (
        if e.character.id == id
        then join (some e.unique) (claim id n rest es)
        else claim id n rest es)
unfolding claim
claim_same id n rest e es h l =
    let same : eqb (length e.words) n ≡ true = ground arith in rw (h, same) refl

next_tied :
    (id : String) (rest : List Word) (e : Entry) (es : List Entry) (b : Best) (n m : ℕ)
    → stands rest e ≡ true
    → length e.words ≡ b.0
    → m ≡ max b.0 n
    → next id rest (b.0, Dict.set e.character.id (flag e.character.id b.1 || e.unique) b.1) n es
      ≡ next id rest b m (e ∷ es)
next_tied id rest e es (best, winners) n m h l k = elim (Bool-cases (ltb best n)) [
  | inl below ↦
      let top : m ≡ n = ground (arith, below) in
      rw (top, below, claim_other id n rest e es (ground (arith, below, l))) refl
  | inr at ↦
      let top : m ≡ best = ground (arith, at) in
      let over : ltb best best ≡ false = ground arith in
      rw (top, at, over, claim_same id best rest e es h l)
        (ground (
          arith,
          get_tied id e.character.id e.unique winners,
          join_assoc (Dict.get id winners) (some e.unique) (claim id best rest es),
        ))
]

next_longer :
    (id : String) (rest : List Word) (e : Entry) (es : List Entry) (b : Best) (n m : ℕ)
    → stands rest e ≡ true
    → b.0 < length e.words
    → m ≡ max (length e.words) n
    → next id rest (length e.words, (e.character.id, e.unique) ∷ []) n es
      ≡ next id rest b m (e ∷ es)
unfolding Dict.get
next_longer id rest e es (best, winners) n m h l k = elim (Bool-cases (ltb (length e.words) n)) [
  | inl below ↦
      let top : m ≡ n = ground (arith, below) in
      let beyond : ltb best n ≡ true = ground (arith, below) in
      rw (top, below, beyond, claim_other id n rest e es (ground (arith, below))) refl
  | inr at ↦
      let top : m ≡ length e.words = ground (arith, at) in
      let beyond : ltb best (length e.words) ≡ true = ground (arith, at) in
      rw (top, at, beyond, claim_same id (length e.words) rest e es h refl) (ground arith)
]

next_over :
    (id : String) (rest : List Word) (e : Entry) (es : List Entry) (b : Best) (n m : ℕ)
    → length e.words < b.0
    → max b.0 m ≡ max b.0 n
    → next id rest b n es ≡ next id rest b m (e ∷ es)
next_over id rest e es (best, winners) n m l k = elim (Bool-cases (ltb best n)) [
  | inl below ↦
      let top : m ≡ n = ground (arith, below) in
      rw (top, below, claim_other id n rest e es (ground (arith, below))) refl
  | inr at ↦
      let over : ltb best m ≡ false = ground (arith, at) in
      rw (at, over, claim_other id best rest e es (ground (arith, l))) refl
]

-- The loop's result from a best so far.
abbrev Found : String → List Word → List Entry → Best → Best → Type 0
Found id rest es b r =
    (r.0 ≡ max b.0 (longest rest es)) × (Dict.get id r.1 ≡ next id rest b (longest rest es) es)

claim_absent :
    (id : String) (n : ℕ) (rest : List Word) (e : Entry) (es : List Entry)
    → stands rest e ≡ false
    → claim id n rest (e ∷ es) ≡ claim id n rest es
unfolding claim
claim_absent id n rest e es h = rw h refl

longest_absent :
    (rest : List Word) (e : Entry) (es : List Entry)
    → stands rest e ≡ false
    → longest rest (e ∷ es) ≡ longest rest es
unfolding longest
longest_absent rest e es h = rw h refl

longest_there :
    (rest : List Word) (e : Entry) (es : List Entry)
    → stands rest e ≡ true
    → longest rest (e ∷ es) ≡ max (length e.words) (longest rest es)
unfolding longest
longest_there rest e es h = rw h refl

extend_absent :
    (id : String) (rest : List Word) (e : Entry) (es : List Entry) (b r : Best)
    → stands rest e ≡ false
    → Found id rest es b r
    → Found id rest (e ∷ es) b r
extend_absent id rest e es (best, winners) r h f =
    rw
      (
        longest_absent rest e es h,
        claim_absent id best rest e es h,
        claim_absent id (longest rest es) rest e es h,
      )
      f

extend_there :
    (id : String) (rest : List Word) (e : Entry) (es : List Entry) (b b' r : Best)
    → b'.0 ≡ max b.0 (length e.words)
    → stands rest e ≡ true
    → next id rest b' (longest rest es) es ≡ next id rest b (longest rest (e ∷ es)) (e ∷ es)
    → Found id rest es b' r
    → Found id rest (e ∷ es) b r
extend_there id rest e es b b' r m h g (n, w) =
    (ground (arith, n, m, longest_there rest e es h), w ∙ g)

find_best_step :
    (rest : List Word) (e : Entry) (es : List Entry) (b b' : Best)
    → consider rest e b ≡ b'
    → find_best rest (e ∷ es) b ≡ find_best rest es b'
unfolding find_best
find_best_step rest e es b b' h = ap (find_best rest es) h

-- What the loop over the entries finds from any best so far.
find_best_from :
    (id : String) (rest : List Word) (es : List Entry) (b : Best)
    → Found id rest es b (find_best rest es b)
unfolding find_best longest claim
find_best_from id rest [] (best, winners) = (omega arith, ground arith)
find_best_from id rest (e ∷ es) (best, winners) = elim (Bool-cases (stands rest e)) [
  | inr absent ↦
      rw
        (find_best_step rest e es (best, winners) _
          (passed_over rest e (best, winners) (ground (arith, absent))))
        (extend_absent id rest e es (best, winners) _ absent
          (find_best_from id rest es (best, winners)))
  | inl there ↦
      let top = longest_there rest e es there in
      elim (Nat-cases (length e.words) best) [
        | inl over ↦
            rw
              (find_best_step rest e es (best, winners) _
                (passed_over rest e (best, winners) (ground arith)))
              (extend_there id rest e es (best, winners) (best, winners) _ (omega arith) there
                (next_over id rest e es (best, winners) _ _ over (omega (arith, top, over)))
                (find_best_from id rest es (best, winners)))
        | inr (inl tie) ↦
            rw (find_best_step rest e es (best, winners) _ (tied rest e (best, winners) there tie))
              (extend_there id rest e es (best, winners) _ _ (omega (arith, tie)) there
                (next_tied id rest e es (best, winners) _ _ there tie (omega (arith, top, tie)))
                (find_best_from id rest es (
                  best,
                  Dict.set e.character.id (flag e.character.id winners || e.unique) winners,
                )))
        | inr (inr more) ↦
            rw
              (find_best_step rest e es (best, winners) _
                (longer rest e (best, winners) there more))
              (extend_there id rest e es (best, winners) _ _ (omega (arith, more)) there
                (next_longer id rest e es (best, winners) _ _ there more top)
                (find_best_from id rest es (length e.words, (e.character.id, e.unique) ∷ [])))
      ]
]

-- At a position, the longest entry that stands there wins, and its winners are the characters that
-- have an entry of that length there, each with whether such an entry is its own alone.
pub find_best-longest :
    (id : String) (rest : List Word) (es : List Entry)
    → ((find_best rest es (0, [])).0 ≡ longest rest es)
      × (Dict.get id (find_best rest es (0, [])).1 ≡ claim id (longest rest es) rest es)
unfolding Dict.get
find_best-longest id rest es =
    let (n, w) = find_best_from id rest es (0, []) in
    elim (Bool-cases (ltb 0 (longest rest es))) [
      | inl some_length ↦ (n ∙ omega arith, w ∙ rw some_length refl)
      | inr no_length ↦
          let top : longest rest es ≡ 0 = ground (arith, no_length) in
          (n ∙ omega arith, w ∙ rw (no_length, top) refl)
    ]

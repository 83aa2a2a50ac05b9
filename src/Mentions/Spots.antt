-- ===== src/Mentions/Spots.antt =====
-- The positions that the loop over a sentence visits, and what it collects there.
use dockb.Prelude.{
  ℕ, zero, suc, ◌-◌, ◌≤◌, max, String, ◌≡◌, refl, sym, ◌∙◌, inl, inr, Bool, true, not, ◌||◌, Option,
  none, some, List, [], ◌∷◌, ◌++◌, arith, ◌==◌, eq_iff, eq_refl, if◌then◌else◌, Bool-cases, length,
}
use dockb.Dict
use dockb.Dict.{Dict, get-set, unique_keys, unique_keys-set, get_behind}
use dockb.Mentions.{
  Token, Entry, Word, drop, Best, flag, consider, find_best, note, judge_words, sentence_words,
  judge_sentences,
}
use dockb.Mentions.Longest.{longest, join, claim, find_best-longest}

-- The words from each position on that the reading of a sentence stops at: behind a match, or one
-- word further where nothing matches.
unfoldable pub spots : List Entry → ℕ → List Word → List (List Word)
spots es zero ws = []
spots es (suc fuel) [] = []
spots es (suc fuel) (w ∷ ws) =
    (w ∷ ws) ∷ spots es fuel (drop (max (longest (w ∷ ws) es) 1) (w ∷ ws))

abbrev pub flip : Option Bool → Option Bool
flip none = none
flip (some unique) = some (not unique)

-- Nothing, where the character is at none of the positions; otherwise whether it is at one of them by
-- a name that is not its own alone.
unfoldable pub seen : String → List Entry → List (List Word) → Option Bool
seen id es [] = none
seen id es (r ∷ rs) = join (flip (claim id (longest r es) r es)) (seen id es rs)

join_assoc : (a b c : Option Bool) → join (join a b) c ≡ join a (join b c)
join_assoc none b c = refl
join_assoc (some a) none c = refl
join_assoc (some a) (some b) none = refl
join_assoc (some a) (some b) (some c) = ground arith

consider_unique :
    (rest : List Word) (e : Entry) (b : Best)
    → unique_keys b.1 ≡ true
    → unique_keys (consider rest e b).1 ≡ true
unfolding consider unique_keys Dict.member
consider_unique rest e (best, winners) h =
    ground
      (arith, h, unique_keys-set e.character.id (flag e.character.id winners || e.unique) winners h)

find_best_unique :
    (rest : List Word) (es : List Entry) (b : Best)
    → unique_keys b.1 ≡ true
    → unique_keys (find_best rest es b).1 ≡ true
unfolding find_best
find_best_unique rest [] b h = h
find_best_unique rest (e ∷ es) b h =
    find_best_unique rest es (consider rest e b) (consider_unique rest e b h)

get_flagged :
    (id i : String) (v : Bool) (d : Dict Bool)
    → Dict.get id (Dict.set i (flag i d || v) d)
      ≡ (if i == id then join (Dict.get id d) (some v) else Dict.get id d)
get_flagged id i v d = elim (Bool-cases (i == id)) [
  | inl same ↦
      let e : i ≡ id = (eq_iff i id).0 same in
      rw e (ground (arith, get-set id id (flag id d || v) d, eq_refl id))
  | inr other ↦ ground (arith, get-set i id (flag i d || v) d, other)
]

get-note :
    (id : String) (winners d : Dict Bool)
    → unique_keys winners ≡ true
    → Dict.get id (note winners d) ≡ join (Dict.get id d) (flip (Dict.get id winners))
unfolding note Dict.get unique_keys
get-note id [] d h = ground arith
get-note id ((i, u) ∷ ws) d h =
    let rest : unique_keys ws ≡ true = ground arith in
    let ih = get-note id ws (Dict.set i (flag i d || not u) d) rest in
    elim (Bool-cases (i == id)) [
      | inl same ↦ ground (arith, ih, same, get_behind id i u ws h same, get_flagged id i (not u) d)
      | inr other ↦ ground (arith, ih, other, get_flagged id i (not u) d)
    ]

note_unique : (winners d : Dict Bool) → unique_keys d ≡ true → unique_keys (note winners d) ≡ true
unfolding note
note_unique [] d h = h
note_unique ((i, u) ∷ ws) d h =
    note_unique ws (Dict.set i (flag i d || not u) d) (unique_keys-set i (flag i d || not u) d h)

length-drop_le : (n : ℕ) (ws : List Word) → length (drop n ws) ≤ length ws
length-drop_le zero ws = omega arith
length-drop_le (suc n) [] = omega arith
length-drop_le (suc n) (w ∷ ws) = omega (arith, length-drop_le n ws)

length-drop : (n : ℕ) (w : Word) (ws : List Word) → length (drop (max n 1) (w ∷ ws)) ≤ length ws
length-drop n w ws =
    let positive : max n 1 ≡ suc (max n 1 - 1) = omega arith in
    rw positive (length-drop_le (max n 1 - 1) ws)

get-judge_words :
    (id : String) (es : List Entry) (fuel fuel' : ℕ) (ws : List Word) (d : Dict Bool)
    → length ws ≤ fuel
    → length ws ≤ fuel'
    → Dict.get id (judge_words es fuel ws d) ≡ join (Dict.get id d) (seen id es (spots es fuel' ws))
unfolding judge_words spots seen unique_keys
get-judge_words id es zero zero ws d h h' = ground arith
get-judge_words id es zero (suc fuel') [] d h h' = ground arith
get-judge_words id es zero (suc fuel') (w ∷ ws) d h h' = absurd (omega arith)
get-judge_words id es (suc fuel) zero [] d h h' = ground arith
get-judge_words id es (suc fuel) zero (w ∷ ws) d h h' = absurd (omega arith)
get-judge_words id es (suc fuel) (suc fuel') [] d h h' = ground arith
get-judge_words id es (suc fuel) (suc fuel') (w ∷ ws) d h h' =
    let (n, found) = find_best-longest id (w ∷ ws) es in
    let winners = (find_best (w ∷ ws) es (0, [])).1 in
    let rest = drop (max (longest (w ∷ ws) es) 1) (w ∷ ws) in
    let shorter = length-drop (longest (w ∷ ws) es) w ws in
    let ih = get-judge_words id es fuel fuel' rest (note winners d) (omega arith) (omega arith) in
    let noted = get-note id winners d (find_best_unique (w ∷ ws) es (0, []) refl) in
    rw n (ih ∙ rw (noted, found) (join_assoc (Dict.get id d) _ _))

pub judge_words_unique :
    (es : List Entry) (fuel : ℕ) (ws : List Word) (d : Dict Bool)
    → unique_keys d ≡ true
    → unique_keys (judge_words es fuel ws d) ≡ true
unfolding judge_words
judge_words_unique es zero ws d h = h
judge_words_unique es (suc fuel) [] d h = h
judge_words_unique es (suc fuel) (w ∷ ws) d h =
    let (n, winners) = find_best (w ∷ ws) es (0, []) in
    judge_words_unique es fuel (drop (max n 1) (w ∷ ws)) (note winners d) (note_unique winners d h)

-- The positions of all sentences of a paragraph.
unfoldable pub all_spots : (String → String) → List Entry → List (List Token) → List (List Word)
all_spots lower es [] = []
all_spots lower es (s ∷ ss) =
    spots es (length (sentence_words lower s)) (sentence_words lower s) ++ all_spots lower es ss

seen-append :
    (id : String) (es : List Entry) (xs ys : List (List Word))
    → seen id es (xs ++ ys) ≡ join (seen id es xs) (seen id es ys)
unfolding seen
seen-append id es [] ys = refl
seen-append id es (x ∷ xs) ys =
    rw (seen-append id es xs ys) (sym (join_assoc (flip (claim id (longest x es) x es)) _ _))

pub get-judge_sentences :
    (lower : String → String) (id : String) (es : List Entry) (ss : List (List Token))
    (d : Dict Bool)
    → Dict.get id (judge_sentences lower es ss d)
      ≡ join (Dict.get id d) (seen id es (all_spots lower es ss))
unfolding judge_sentences all_spots seen
get-judge_sentences lower id es [] d = ground arith
get-judge_sentences lower id es (s ∷ ss) d =
    let ws = sentence_words lower s in
    let n = length ws in
    get-judge_sentences lower id es ss (judge_words es n ws d)
    ∙ rw
        (
          get-judge_words id es n n ws d (omega arith) (omega arith),
          seen-append id es (spots es n ws) (all_spots lower es ss),
        )
        (join_assoc (Dict.get id d) _ _)

pub judge_sentences_unique :
    (lower : String → String) (es : List Entry) (ss : List (List Token)) (d : Dict Bool)
    → unique_keys d ≡ true
    → unique_keys (judge_sentences lower es ss d) ≡ true
unfolding judge_sentences
judge_sentences_unique lower es [] d h = h
judge_sentences_unique lower es (s ∷ ss) d h =
    let ws = sentence_words lower s in
    judge_sentences_unique lower es ss (judge_words es (length ws) ws d)
      (judge_words_unique es (length ws) ws d h)

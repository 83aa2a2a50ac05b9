-- ===== src/Mentions/Stamps.antt =====
-- What the two tiers write.
use dockb.Prelude.{
  ℕ, zero, suc, ◌+◌, String, ◌≡◌, refl, sym, ap, ◌∙◌, ◌⊎◌, inl, inr, Bool, true, false, not, Option,
  none, some, List, [], ◌∷◌, ◌++◌, map, arith, ◌==◌, eq_refl, Option-cases, get_elem?, keep_if,
  find_first, All, All-append,
}
use mathlib.Core.Option
use dockb.Prelude.Text.{has}
use dockb.Prelude.Decimal.{decimal}
use dockb.Dict
use dockb.Dict.{Dict, get-set, get-set_self}
use dockb.Mentions.{Paragraph, Chapter, Verdict, is_nil, name_entries, judge_paragraph}
use dockb.Mentions.Spots.{seen, all_spots}
use dockb.Mentions.Judge.{is_settled, is_waiting, Settled, judge_paragraph-Settled}
use dockb.Mentions.Tiers.{
  Stamp, Gathered, stamp_of, and_then, tier1, Span, settle_by_ner, paragraph_text,
}
use dockb.Mentions.Answers.{
  Value, Candidate, prompt, answered, read_answers, unresolved, judge_ambiguous, Open,
  candidate_key, candidates_of, collect, resolve, stamp_all, tier2,
}

-- What the names in a paragraph say of a character.
abbrev pub state : (String → String) → Gathered → Paragraph → String → Option Bool
state lower g p id =
    seen id (name_entries lower g.owners g.characters)
      (all_spots lower (name_entries lower g.owners g.characters) p.sentences)

abbrev pub find : Gathered → String → Option Paragraph
find g id = find_first (λ p. p.id == id) g.chapter.paragraphs

-- A stamp has a verdict for exactly the characters that the names settle, and is checked exactly if no
-- character waits.
abbrev pub Timely : (String → Option Bool) → String → Option String → Type 0
Timely f now none = (id : String) × (is_waiting (f id) ≡ true)
Timely f now (some time) = (time ≡ now) × ((id : String) → is_waiting (f id) ≡ false)

abbrev pub Right : (String → String) → String → Gathered → Stamp → Type 0
Right lower now g s =
    (p : Paragraph) × (find g s.paragraph_id ≡ some p)
    × ((id : String)
        → has id (map (λ v. v.character_id) s.verdicts) ≡ is_settled (state lower g p id))
    × Timely (state lower g p) now s.checked_at

stamp_of-Right :
    (lower : String → String) (now id : String) (g : Gathered) (p : Paragraph)
    (verdicts : List Verdict) (waiting : List Chapter)
    → find g id ≡ some p
    → Settled (state lower g p) (some (verdicts, waiting))
    → All (Right lower now g) (stamp_of now id verdicts (not (is_nil waiting)))
stamp_of-Right lower now id g p verdicts [] there h =
    ((p, there, (λ i. (h i).0), (refl, λ i. sym (h i).1)), tt)
stamp_of-Right lower now id g p [] (c ∷ cs) there h = tt
stamp_of-Right lower now id g p (v ∷ vs) (c ∷ cs) there h =
    ((p, there, (λ i. (h i).0), (c.id, ground (arith, (h c.id).1, eq_refl c.id))), tt)

-- Tier 1 raises no KeyError, and each of its stamps is on a paragraph of the chapter, has a
-- verdict for exactly the characters that the names settle, and is checked exactly if no character
-- waits.
pub tier1-Right :
    (lower : String → String) (now : String) (g : Gathered) (ids : List String)
    → ((tier1 lower now g ids).1 ≡ true) × All (Right lower now g) (tier1 lower now g ids).0
unfolding tier1 find_first
tier1-Right lower now g [] = (refl, tt)
tier1-Right lower now g (id ∷ ids) =
    let (ok, rest) = tier1-Right lower now g ids in
    elim (Option-cases (find g id)) [
      | inl absent ↦ rw (tier1, absent) (ok, rest)
      | inr (p, there) ↦
          let h = judge_paragraph-Settled lower p.sentences g.characters g.owners in
          elim (Option-cases (judge_paragraph lower p.sentences g.characters g.owners)) [
            | inl raised ↦ absurd (rw raised at h)
            | inr (x, judged) ↦
                let h' = rw judged at h in
                rw (tier1, there, judged)
                  (
                    ok,
                    All-append (Right lower now g) (stamp_of now id x.0 (not (is_nil x.1))) _
                        (stamp_of-Right lower now id g p x.0 x.1 there h') rest,
                  )
          ]
    ]

-- No answer of the model is in the dictionary.
abbrev Blank : Dict (Option Bool) → Type 0
Blank d = (k : String) → (Dict.get k d ≡ none) ⊎ (Dict.get k d ≡ some none)

unresolved-Blank :
    (cs : List Candidate) (d : Dict (Option Bool)) → Blank d → Blank (unresolved cs d)
unfolding unresolved
unresolved-Blank [] d h = h
unresolved-Blank (c ∷ cs) d h =
    unresolved-Blank cs (Dict.set c.key none d) (λ k. ground (arith, get-set c.key k none d, h k))

resolve-Blank :
    (d : Dict (Option Bool)) (id : String) (settled : List Verdict) (cs : List Chapter)
    → Blank d
    → resolve d id settled cs ≡ (settled, not (is_nil cs))
unfolding resolve
resolve-Blank d id settled [] h = refl
resolve-Blank d id settled (c ∷ cs) h =
    ground (arith, h (candidate_key id c), resolve-Blank d id settled cs h)

module _ (complete : String → Option String) (json_object : String → Option (Dict Value)) where
  judge_ambiguous-Blank :
      (cs : List Candidate)
      → ((text : String) → complete text ≡ none)
      → Blank (judge_ambiguous complete json_object cs)
  unfolding judge_ambiguous Dict.get
  judge_ambiguous-Blank [] h = λ k. inl refl
  judge_ambiguous-Blank (c ∷ cs) h =
      rw (judge_ambiguous, h (prompt (c ∷ cs))) (unresolved-Blank (c ∷ cs) [] (λ k. inl refl))

  settle_by_ner-no_spans :
      (lower : String → String) (owners : Dict (List String)) (settled : List Verdict)
      (cs : List Chapter)
      → settle_by_ner lower owners [] settled cs ≡ (settled, cs)
  unfolding settle_by_ner keep_if
  settle_by_ner-no_spans lower owners settled [] = refl
  settle_by_ner-no_spans lower owners settled (c ∷ cs) =
      rw (settle_by_ner-no_spans lower owners settled cs) refl

  -- Tier 2, from its stamps and tier 1's.
  abbrev Agrees :
      String → Dict (Option Bool) → List Stamp × Bool → Option (List Open × List Candidate) → Type 0
  Agrees now d (stamps, ok) none = ok ≡ false
  Agrees now d (stamps, ok) (some (opened, candidates)) =
      (ok ≡ true) × (stamp_all d now opened ≡ stamps)

  agreement :
      (now id : String) (d : Dict (Option Bool)) (verdicts : List Verdict) (waiting : List Chapter)
      (new : List Candidate) (x : List Stamp × Bool) (rest : Option (List Open × List Candidate))
      → Blank d
      → Agrees now d x rest
      → Agrees now d (and_then (stamp_of now id verdicts (not (is_nil waiting))) x) (
          Option.map
            (λ y. (
              record { paragraph_id = id; settled = verdicts; waiting = waiting } ∷ y.0,
              new ++ y.1,
            ))
            rest)
  unfolding stamp_all
  agreement now id d verdicts waiting new (stamps, ok) none h a = a
  agreement now id d verdicts waiting new (stamps, ok) (some (opened, candidates)) h (good, a) =
      (good, rw (resolve-Blank d id verdicts waiting h, a) refl)

  collect-Agrees :
      (lower : String → String) (spans : String → List Span) (now : String) (g : Gathered)
      (d : Dict (Option Bool)) (ids : List String)
      → ((text : String) → spans text ≡ [])
      → Blank d
      → Agrees now d (tier1 lower now g ids) (collect lower spans g ids)
  unfolding tier1 collect stamp_all
  collect-Agrees lower spans now g d [] quiet h = (refl, refl)
  collect-Agrees lower spans now g d (id ∷ ids) quiet h =
      let rest = collect-Agrees lower spans now g d ids quiet h in
      elim (Option-cases (find g id)) [
        | inl absent ↦ rw (tier1, collect, absent) rest
        | inr (p, there) ↦
            elim (Option-cases (judge_paragraph lower p.sentences g.characters g.owners)) [
              | inl raised ↦ rw (tier1, collect, there, raised) refl
              | inr ((verdicts, waiting), judged) ↦
                  rw
                    (
                      tier1,
                      collect,
                      there,
                      judged,
                      quiet (paragraph_text p),
                      settle_by_ner-no_spans lower g.owners verdicts waiting,
                    )
                    (agreement now id d verdicts waiting (candidates_of lower p waiting) _ _ h rest)
            ]
      ]

  -- With no entity found and a model that fails, tier 2 raises nothing and writes exactly what
  -- tier 1 writes.
  pub tier2-tier1 :
      (lower : String → String) (spans : String → List Span) (now : String) (g : Gathered)
      → ((text : String) → spans text ≡ [])
      → ((text : String) → complete text ≡ none)
      → tier2 lower spans complete json_object true false now g
        ≡ some (tier1 lower now g g.pending).0
  unfolding tier2 Dict.get
  tier2-tier1 lower spans now g quiet fails =
      elim (Option-cases (collect lower spans g g.pending)) [
        | inl raised ↦
            let a = collect-Agrees lower spans now g [] g.pending quiet (λ k. inl refl) in
            let bad : (tier1 lower now g g.pending).1 ≡ false = rw raised at a in
            absurd (ground (arith, (tier1-Right lower now g g.pending).0, bad))
        | inr ((opened, candidates), found) ↦
            let d = judge_ambiguous complete json_object candidates in
            let a =
              collect-Agrees lower spans now g d g.pending quiet
                (judge_ambiguous-Blank candidates fails) in
            let (good, same) = rw found at a in rw found (ap some same)
      ]

-- No two candidates have the same key.
abbrev pub Keyed : List Candidate → Type 0
Keyed [] = Unit
Keyed (c ∷ cs) = (has c.key (map (λ x. x.key) cs) ≡ false) × Keyed cs

get-read_answers_other :
    (n : ℕ) (verdicts : Dict Value) (cs : List Candidate) (k : String) (out : Dict (Option Bool))
    → has k (map (λ x. x.key) cs) ≡ false
    → Dict.get k (read_answers n verdicts cs out) ≡ Dict.get k out
unfolding read_answers
get-read_answers_other n verdicts [] k out h = refl
get-read_answers_other n verdicts (c ∷ cs) k out h =
    let answer = answered (Dict.get (decimal n) verdicts) in
    get-read_answers_other (suc n) verdicts cs k (Dict.set c.key answer out) (ground arith)
    ∙ ground (arith, get-set c.key k answer out)

get-read_answers :
    (n i : ℕ) (verdicts : Dict Value) (cs : List Candidate) (c : Candidate)
    (out : Dict (Option Bool))
    → Keyed cs
    → get_elem? cs i ≡ some c
    → Dict.get c.key (read_answers n verdicts cs out)
      ≡ some (answered (Dict.get (decimal (n + i)) verdicts))
unfolding read_answers
get-read_answers n i verdicts [] c out h at = cc
get-read_answers n zero verdicts (b ∷ cs) c out h at =
    let same : b ≡ c = ap (λ o. elim o [ none ↦ b | some x ↦ x ]) at in
    let number : n + 0 ≡ n = omega arith in
    let answer = answered (Dict.get (decimal n) verdicts) in
    rw (← same, number)
      (get-read_answers_other (suc n) verdicts cs b.key (Dict.set b.key answer out) h.0
        ∙ get-set_self b.key answer out)
get-read_answers n (suc i) verdicts (b ∷ cs) c out h at =
    let number : n + suc i ≡ suc n + i = omega arith in
    rw number (
      get-read_answers (suc n) i verdicts cs c
        (Dict.set b.key (answered (Dict.get (decimal n) verdicts)) out) h.1 at)

-- If no two candidates have the same key, the model answers and the answer is a JSON object, the
-- verdict on a candidate is the entry at its number, counted from 1, if that is a boolean, and
-- otherwise missing.
pub judge_ambiguous-answers :
    (complete : String → Option String) (json_object : String → Option (Dict Value))
    (cs : List Candidate) (i : ℕ) (c : Candidate) (answer : String) (verdicts : Dict Value)
    → Keyed cs
    → get_elem? cs i ≡ some c
    → complete (prompt cs) ≡ some answer
    → json_object answer ≡ some verdicts
    → Dict.get c.key (judge_ambiguous complete json_object cs)
      ≡ some (answered (Dict.get (decimal (1 + i)) verdicts))
unfolding judge_ambiguous
judge_ambiguous-answers complete json_object [] i c answer verdicts h at said read = cc
judge_ambiguous-answers complete json_object (b ∷ cs) i c answer verdicts h at said read =
    rw (judge_ambiguous, said, read) (get-read_answers 1 i verdicts (b ∷ cs) c [] h at)

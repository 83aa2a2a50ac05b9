-- ===== src/UnitOfWork/Commit.antt =====
-- `commit`: all entries in order and then empty lists, or an exception and the lists as they were.
use dockb.Prelude.{
  ◌≡◌, refl, ap, ◌⊎◌, inl, inr, Bool, true, false, not, Option, none, some, List, [], ◌∷◌, ◌++◌,
  arith, Bool-cases, Option-cases, any_of, All,
}
use mathlib.Core.List.{append-nil, append_assoc}
use dockb.Models.{Kind, Write, save_query}
use dockb.UnitOfWork.{
  Heap, Entry, Error, value_error, key_error, driver_error, UnitOfWork, same_kind, save, save_all,
  may_delete, cleared, commit,
}

abbrev pub query_of : Option (Option Write) → List Write → List Write
query_of none ws = ws
query_of (some none) ws = ws
query_of (some (some w)) ws = w ∷ ws

-- The queries that the entries stand for, in their order.
abbrev pub wanted : Heap → List Entry → List Write
wanted h [] = []
wanted h ((r, ids) ∷ es) = query_of (save_query r (h r)) (wanted h es)

-- `ws` is a first part of `all`.
abbrev pub FirstPart : List Write → List Write → Type 0
FirstPart ws all = (rest : List Write) × (all ≡ ws ++ rest)

module _ (accepts : Write → Bool) (kinds : List Kind) (h : Heap) where
  -- What a loop of saves has written: every query if it ends, a first part of them if it raises.
  pub save_all_writes :
      (es : List Entry) (log : List Write)
      → ((save_all accepts kinds h es log ≡ (log ++ wanted h es, none)))
        ⊎ ((ws : List Write) × (e : Error) × (save_all accepts kinds h es log ≡ (log ++ ws, some e))
            × FirstPart ws (wanted h es))
  unfolding save_all save
  save_all_writes [] log = inl (simp append-nil)
  save_all_writes ((r, ids) ∷ es) log = elim (Bool-cases (any_of (same_kind (h r).kind) kinds)) [
    | inr missing ↦ inr ([], key_error, ground (arith, append-nil log), (_, refl))
    | inl known ↦ elim (Option-cases (save_query r (h r))) [
      | inl dirty ↦ inr ([], value_error, ground (arith, append-nil log), (_, refl))
      | inr (none, skip) ↦ elim (save_all_writes es log) [
        | inl all ↦ inl (ground (arith, all))
        | inr (ws, e, part, rest) ↦
            inr (ws, e, ground (arith, part), (rest.0, ground (arith, rest.1)))
      ]
      | inr (some w, q) ↦ elim (Bool-cases (accepts w)) [
        | inr refused ↦ inr ([], driver_error, ground (arith, append-nil log), (_, refl))
        | inl fine ↦ elim (save_all_writes es (log ++ w ∷ [])) [
          | inl all ↦ inl (ground (arith, all, append_assoc log (w ∷ []) (wanted h es)))
          | inr (ws, e, part, rest) ↦ inr (
            w ∷ ws,
            e,
            ground (arith, part, append_assoc log (w ∷ []) ws),
            (rest.0, ground (arith, rest.1)),
          )
        ]
      ]
    ]
  ]

  -- What makes a save go through.
  abbrev pub Saveable : Entry → Type 0
  Saveable e =
      (any_of (same_kind (h e.0).kind) kinds ≡ true)
      × ((h e.0).dirty ≡ false)
      × ((w : Write) → save_query e.0 (h e.0) ≡ some (some w) → accepts w ≡ true)

  pub save_total :
      (e : Entry) (log : List Write)
      → Saveable e
      → save accepts kinds h e.0 log ≡ (log ++ query_of (save_query e.0 (h e.0)) [], none)
  unfolding save
  save_total e log good = elim (Option-cases (save_query e.0 (h e.0))) [
    | inl dirty ↦ absurd (unfold save_query in ground arith)
    | inr (none, skip) ↦ ground (arith, append-nil log)
    | inr (some w, q) ↦ ground (arith, good.2 w q)
  ]

  pub save_all_total :
      (es : List Entry) (log : List Write)
      → All Saveable es
      → save_all accepts kinds h es log ≡ (log ++ wanted h es, none)
  unfolding save_all save
  save_all_total [] log good = simp append-nil
  save_all_total ((r, ids) ∷ es) log good = elim (Option-cases (save_query r (h r))) [
    | inl dirty ↦ absurd (unfold save_query in ground arith)
    | inr (none, skip) ↦ ground (arith, save_all_total es log good.1)
    | inr (some w, q) ↦ ground (
      arith,
      good.0.2 w q,
      save_all_total es (log ++ w ∷ []) good.1,
      append_assoc log (w ∷ []) (wanted h es),
    )
  ]

pub query_of-append :
    (q : Option (Option Write)) (log ws : List Write)
    → (log ++ query_of q []) ++ ws ≡ log ++ query_of q ws
query_of-append none log ws = ap (λ l. l ++ ws) (append-nil log)
query_of-append (some none) log ws = ap (λ l. l ++ ws) (append-nil log)
query_of-append (some (some w)) log ws = append_assoc log (w ∷ []) ws

-- The entries of a unit of work in the order in which a commit saves them.
abbrev pub entries : UnitOfWork → List Entry
entries u = u.fresh ++ u.altered ++ u.removed

-- A commit writes the query of every entry, new before changed before deleted, and empties the
-- lists; or it raises, has written a first part of those queries, and keeps the lists.
pub commit_all_or_kept :
    (accepts : Write → Bool) (h : Heap) (u : UnitOfWork) (log : List Write)
    → (commit accepts h u log ≡ (cleared accepts u, log ++ wanted h (entries u), none))
      ⊎ ((ws : List Write) × (e : Error) × (commit accepts h u log ≡ (u, log ++ ws, some e))
          × FirstPart ws (wanted h (entries u)))
unfolding commit
commit_all_or_kept accepts h u log = elim (Option-cases u.repos) [
  | inl missing ↦ inr ([], value_error, ground (arith, append-nil log), (_, refl))
  | inr (kinds, found) ↦
      elim (Bool-cases (any_of (λ e. not (may_delete accepts (h e.0))) u.removed)) [
        | inl invalid ↦ inr ([], value_error, ground (arith, append-nil log), (_, refl))
        | inr valid ↦ elim (save_all_writes accepts kinds h (entries u) log) [
          | inl all ↦ inl (ground (arith, all))
          | inr (ws, e, part, rest) ↦ inr (ws, e, ground (arith, part), rest)
        ]
      ]
]

-- With a repository for every entry, clean models, entries still deleted and a database that
-- accepts their queries, a commit goes through.
pub commit_total :
    (accepts : Write → Bool) (kinds : List Kind) (h : Heap) (u : UnitOfWork) (log : List Write)
    → u.repos ≡ some kinds
    → All (Saveable accepts kinds h) (entries u)
    → any_of (λ e. not (may_delete accepts (h e.0))) u.removed ≡ false
    → commit accepts h u log ≡ (cleared accepts u, log ++ wanted h (entries u), none)
unfolding commit
commit_total accepts kinds h u log repos good valid =
    ground (arith, save_all_total accepts kinds h (entries u) log good)

-- ===== src/Assignments/Outcomes.antt =====
-- What an assignment leaves behind on each branch, and where the files are then.
use dockb.Prelude.{
  String, ◌≡◌, refl, ◌↔◌, ◌⊎◌, inl, inr, true, false, Option, none, some, [], ◌∷◌, ◌++◌, map, arith,
  eq_iff,
}
use dockb.Assignments.{
  AssignmentError, snapshot_error, removal_error, Document, DiskPath, Library, Outside, same_owner,
  give, below, copytree, answer, Assignment,
}

pub same_owner_iff : (a b : Option String) → (same_owner a b ≡ true) ↔ (a ≡ b)
same_owner_iff none none = (λ h. refl, λ h. refl)
same_owner_iff none (some b) = (λ h. absurd (ground arith), λ h. absurd (ground arith))
same_owner_iff (some a) none = (λ h. absurd (ground arith), λ h. absurd (ground arith))
same_owner_iff (some a) (some b) =
    (λ h. ground (arith, eq_iff a b), λ h. ground (arith, eq_iff a b))

module _ (lower : String → String) (outside : Outside) (d : Document) (account_id : String) where
  abbrev pub target : DiskPath
  target = account_id ∷ d.title ∷ []

  -- The document is the account's, and its tree has gone from the source to the account.
  pub record Carried (source : DiskPath) (l l' : Library) : Type 0 where
    pub documents : l'.documents ≡ map (give d.id account_id) l.documents
    pub arrived : (rest : DiskPath) → l'.disk.file (target ++ rest) ≡ l.disk.file (source ++ rest)
    pub gone : (rest : DiskPath) → l'.disk.file (source ++ rest) ≡ none
    pub others :
        (path : DiskPath)
        → below source path ≡ none
        → below target path ≡ none
        → l'.disk.file path ≡ l.disk.file path

  -- A directory stands in the way, the copy is not committed, the old tree is not after_removal, or the
  -- document has moved; without a tree only its owner changes.
  abbrev pub MoveOutcome :
      Option DiskPath → Library → Library × (AssignmentError ⊎ Assignment) → Type 0
  MoveOutcome none l x = x ≡ (
    record l { documents = map (give d.id account_id) l.documents },
    inr (answer lower d account_id false false),
  )
  MoveOutcome (some source) l x =
      ((l.disk.is_dir target ≡ true) × (x ≡ (l, inl snapshot_error)))
      ⊎ ((l.disk.is_dir target ≡ false)
          × (outside.git_commit (copytree source target l.disk) ≡ false)
          × (x ≡ (record l { disk = copytree source target l.disk }, inl snapshot_error)))
      ⊎ ((l.disk.is_dir target ≡ false)
          × ((outside.removal source (copytree source target l.disk)).1 ≡ false)
          × (x ≡ (
            record {
              documents = map (give d.id account_id) l.documents;
              disk = (outside.removal source (copytree source target l.disk)).0;
            },
            inl removal_error,
          )))
      ⊎ ((l' : Library) × (l.disk.is_dir target ≡ false)
          × (x ≡ (l', inr (answer lower d account_id true false)))
          × Carried source l l')

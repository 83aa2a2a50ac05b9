-- ===== src/Uploads/Budget.antt =====
-- The byte budget over the parts of an upload.
use dockb.Prelude.{
  ℕ, ◌+◌, ◌≤◌, ◌≡◌, ◌⊎◌, inl, inr, List, [], ◌∷◌, arith, ltb, if◌then◌else◌, Bool-cases,
}
use dockb.Uploads.{UploadError, too_large, UploadBudget, charge}

-- The upload's parts are charged in turn, until one is refused.
unfoldable pub charge_all : List ℕ → UploadBudget → UploadError ⊎ UploadBudget
charge_all [] b = inr b
charge_all (n ∷ ns) b = elim (charge n b) [ inl e ↦ inl e | inr b' ↦ charge_all ns b' ]

abbrev pub total : List ℕ → ℕ
total [] = 0
total (n ∷ ns) = n + total ns

-- An upload is refused exactly when its parts together exceed the limit, however they are cut, and
-- else the budget has spent their sum.
pub charge_all_exact :
    (ns : List ℕ) (b : UploadBudget)
    → b.spent ≤ b.limit
    → charge_all ns b ≡ (
        if ltb b.limit (b.spent + total ns)
        then inl too_large
        else inr (record b { spent = b.spent + total ns }))
unfolding charge_all charge
charge_all_exact [] b fits = ground arith
charge_all_exact (n ∷ ns) b fits = elim (Bool-cases (ltb b.limit (b.spent + n))) [
  | inl over ↦ ground arith
  | inr under ↦
      ground (arith, charge_all_exact ns (record b { spent = b.spent + n }) (ground arith))
]

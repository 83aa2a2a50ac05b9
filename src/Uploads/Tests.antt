-- ===== src/Uploads/Tests.antt =====
-- Uploads of a small book at concrete inputs.
use dockb.Prelude.{String, ◌≡◌, refl, inl, Option, some, List, [], ◌∷◌, arith}
use dockb.Uploads.{UploadError, too_large, validate_part_path, split}
use dockb.Uploads.Paths.{walk, stays_inside}
use dockb.Uploads.Budget.{charge_all, charge_all_exact}

abbrev name : Option String
name = some "book/act one/1.md"

abbrev parts : List String
parts = "book" ∷ "act one" ∷ "1.md" ∷ []

test_dots : validate_part_path (some "book/../../etc") ≡ inl UploadError.rejected
unfolding validate_part_path split
test_dots = refl

stays_inside_example : walk ("tmp" ∷ []) parts ≡ "tmp" ∷ parts
unfolding validate_part_path split
stays_inside_example = stays_inside name parts ("tmp" ∷ []) refl

charge_all_exact_example :
    charge_all (30 ∷ 50 ∷ 40 ∷ []) (record { limit = 100; spent = 0 }) ≡ inl too_large
charge_all_exact_example =
    charge_all_exact (30 ∷ 50 ∷ 40 ∷ []) (record { limit = 100; spent = 0 }) (omega arith)

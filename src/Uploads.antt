-- ===== src/Uploads.antt =====
-- src/dockb/uploads.py: the paths and the volume of an upload. A PurePosixPath is the list of its
-- parts, which for an accepted name are its segments. Of `resolve_inside` the part that asks the
-- file system is the argument `resolve`, which answers absolute paths as lists of parts.
pub mod Paths
pub mod Budget
mod Tests
use dockb.Prelude.{
  ℕ, ◌+◌, ◌*◌, String, ◌⊎◌, inl, inr, Bool, true, false, not, ◌&&◌, ◌||◌, Option, none, some, List,
  [], ◌∷◌, ◌++◌, arith, ◌==◌, eq_iff, ltb, eqb, if◌then◌else◌, eqb_iff, tests, any_of,
}
use Prim.Native.Char.{Char, code}
use Prim.Native.String.{[] as []ˢ, ◌∷◌ as ◌∷ˢ◌}
use dockb.Prelude.Text.{between, has}

-- UploadRejectedError, and its subclass UploadTooLargeError
pub data UploadError : Type 0 where
  rejected too_large : UploadError

-- `MAX_TOTAL_BYTES`
abbrev pub max_total_bytes : ℕ
max_total_bytes = 64 * 1024 * 1024

-- `str.split` at a character, given by its code
abbrev pub onto_first : Char → List String → List String
onto_first c [] = (c ∷ˢ []ˢ) ∷ []
onto_first c (w ∷ ws) = (c ∷ˢ w) ∷ ws

unfoldable pub split : ℕ → String → List String
split sep []ˢ = []ˢ ∷ []
split sep (c ∷ˢ s) =
    let rest = split sep s in if eqb (code c) sep then []ˢ ∷ rest else onto_first c rest

-- `any(p(char) for char in text)`
abbrev pub any_char : (ℕ → Bool) → String → Bool
any_char p []ˢ = false
any_char p (c ∷ˢ s) = p (code c) || any_char p s

-- `_DRIVE_LETTER`
abbrev pub has_drive : String → Bool
has_drive []ˢ = false
has_drive (c ∷ˢ []ˢ) = false
has_drive (c ∷ˢ d ∷ˢ s) = (between 65 90 (code c) || between 97 122 (code c)) && eqb (code d) 58

abbrev pub is_control : ℕ → Bool
is_control c = ltb c 32 || eqb c 127

abbrev pub is_absolute : String → Bool
is_absolute []ˢ = false
is_absolute (c ∷ˢ s) = eqb (code c) 47

abbrev pub bad_segment : String → Bool
bad_segment segment = has segment ("" ∷ "." ∷ ".." ∷ [])

-- `validate_part_path`
abbrev pub validate_name : String → UploadError ⊎ List String
validate_name filename =
    if any_char (λ c. eqb c 92) filename
    then inl rejected
    else if has_drive filename
    then inl rejected
    else if any_char is_control filename
    then inl rejected
    else if is_absolute filename
    then inl rejected
    else if any_of bad_segment (split 47 filename)
    then inl rejected
    else inr (split 47 filename)

unfoldable pub validate_part_path : Option String → UploadError ⊎ List String
validate_part_path none = inl rejected
validate_part_path (some []ˢ) = inl rejected
validate_part_path (some (c ∷ˢ s)) = validate_name (c ∷ˢ s)

-- `Path.is_relative_to`
abbrev pub is_relative_to : List String → List String → Bool
is_relative_to target [] = true
is_relative_to [] (r ∷ root) = false
is_relative_to (t ∷ target) (r ∷ root) = (t == r) && is_relative_to target root

-- `resolve_inside`; a path is relative to itself
unfoldable pub resolve_inside :
    (List String → List String) → List String → List String → UploadError ⊎ List String
resolve_inside resolve base_dir relative =
    let target = resolve (base_dir ++ relative) in
    if is_relative_to target (resolve base_dir) then inr target else inl rejected

-- `document_root`
abbrev pub is_bare : List String → Bool
is_bare [] = true
is_bare (p ∷ []) = true
is_bare (p ∷ q ∷ ps) = false

abbrev pub starts_with : String → List String → Bool
starts_with root [] = false
starts_with root (p ∷ ps) = p == root

abbrev pub shared_root : List String → List (List String) → UploadError ⊎ String
shared_root [] others = inl rejected
shared_root (root ∷ ps) others =
    if any_of (λ path. not (starts_with root path)) others then inl rejected else inr root

unfoldable pub document_root : List (List String) → UploadError ⊎ String
document_root [] = inl rejected
document_root (path ∷ paths) =
    if any_of is_bare (path ∷ paths) then inl rejected else shared_root path paths

-- `UploadBudget`
pub record UploadBudget : Type 0 where
  pub limit : ℕ
  pub spent : ℕ

-- `UploadBudget.charge`
unfoldable pub charge : ℕ → UploadBudget → UploadError ⊎ UploadBudget
charge count b =
    if ltb b.limit (b.spent + count)
    then inl too_large
    else inr (record b { spent = b.spent + count })

-- ===== src/Uploads/Paths.antt =====
-- Upload paths: an accepted name cannot leave the directory that it is joined onto.
use dockb.Prelude.{
  ◌≤◌, String, ◌≡◌, refl, sym, ◌↔◌, inr, Bool, true, false, not, ◌||◌, Option, none, some, List, [],
  ◌∷◌, ◌++◌, arith, ◌==◌, eq_iff, eq_refl, if◌then◌else◌, length, any_of, All,
}
use mathlib.Core.List.{append-nil, append_assoc}
use dockb.Uploads.{
  bad_segment, validate_part_path, is_relative_to, resolve_inside, is_bare, starts_with,
  document_root,
}
use Prim.Native.String.{[] as []ˢ, ◌∷◌ as ◌∷ˢ◌}

-- How a file system without links follows segments from a directory, which is the list of the names
-- on the way to it.
abbrev pub drop_last : List String → List String
drop_last [] = []
drop_last (d ∷ []) = []
drop_last (d ∷ e ∷ ds) = d ∷ drop_last (e ∷ ds)

unfoldable pub walk : List String → List String → List String
walk dir [] = dir
walk dir (s ∷ ss) =
    if (s == "") || (s == ".")
    then walk dir ss
    else if s == ".."
    then walk (drop_last dir) ss
    else walk (dir ++ s ∷ []) ss

walk_names : (ss dir : List String) → any_of bad_segment ss ≡ false → walk dir ss ≡ dir ++ ss
unfolding walk
walk_names [] dir h = sym (append-nil dir)
walk_names (s ∷ ss) dir h = ground (
  arith,
  walk_names ss (dir ++ s ∷ []) (ground arith),
  append_assoc dir (s ∷ []) ss,
  eq_iff "" s,
  eq_iff s "",
  eq_iff "." s,
  eq_iff s ".",
  eq_iff ".." s,
  eq_iff s "..",
)

accepted_names :
    (name : Option String) (ps : List String)
    → validate_part_path name ≡ inr ps
    → any_of bad_segment ps ≡ false
unfolding validate_part_path
accepted_names none ps h = absurd (ground arith)
accepted_names (some []ˢ) ps h = absurd (ground arith)
accepted_names (some (c ∷ˢ s)) ps h = ground arith

-- An accepted name, followed from any directory, ends below that directory, at the path that its
-- segments spell.
pub stays_inside :
    (name : Option String) (ps dir : List String)
    → validate_part_path name ≡ inr ps
    → walk dir ps ≡ dir ++ ps
stays_inside name ps dir h = walk_names ps dir (accepted_names name ps h)

relative_append : (root ps : List String) → is_relative_to (root ++ ps) root ≡ true
relative_append [] ps = refl
relative_append (r ∷ root) ps = ground (arith, eq_refl r, relative_append root ps)

any_of-append :
    (p : String → Bool) (xs ys : List String) → any_of p (xs ++ ys) ≡ any_of p xs || any_of p ys
any_of-append p [] ys = refl
any_of-append p (x ∷ xs) ys = ground (arith, any_of-append p xs ys)

-- Where no links are followed, the second check refuses no accepted name: it answers the path of
-- the name inside the upload directory.
pub resolve_inside_accepts :
    (name : Option String) (ps base_dir : List String)
    → validate_part_path name ≡ inr ps
    → any_of bad_segment base_dir ≡ false
    → resolve_inside (walk []) base_dir ps ≡ inr (base_dir ++ ps)
unfolding resolve_inside
resolve_inside_accepts name ps base_dir h names =
    let all : any_of bad_segment (base_dir ++ ps) ≡ false =
      ground (arith, any_of-append bad_segment base_dir ps, accepted_names name ps h) in
    ground (
      arith,
      walk_names (base_dir ++ ps) [] all,
      walk_names base_dir [] names,
      relative_append base_dir ps,
    )

-- What the second check answers is inside the resolved directory, whatever is resolved.
pub resolve_inside_sound :
    (resolve : List String → List String) (base_dir relative target : List String)
    → resolve_inside resolve base_dir relative ≡ inr target
    → (target ≡ resolve (base_dir ++ relative)) × (is_relative_to target (resolve base_dir) ≡ true)
unfolding resolve_inside
resolve_inside_sound resolve base_dir relative target h = (ground arith, ground arith)

-- A path inside the document directory.
abbrev pub Inside : String → List String → Type 0
Inside root path = (2 ≤ length path) × (starts_with root path ≡ true)

not_bare : (path : List String) → is_bare path ≡ false → 2 ≤ length path
not_bare [] h = cc
not_bare (p ∷ []) h = cc
not_bare (p ∷ q ∷ ps) h = omega arith

bare : (path : List String) → 2 ≤ length path → is_bare path ≡ false
bare [] h = absurd (omega arith)
bare (p ∷ []) h = absurd (omega arith)
bare (p ∷ q ∷ ps) h = refl

all-Inside :
    (root : String) (paths : List (List String))
    → any_of is_bare paths ≡ false
    → any_of (λ path. not (starts_with root path)) paths ≡ false
    → All (Inside root) paths
all-Inside root [] hb hs = tt
all-Inside root (path ∷ paths) hb hs = (
  (not_bare path (ground arith), ground arith),
  all-Inside root paths (ground arith) (ground arith),
)

not_bare_all :
    (root : String) (paths : List (List String))
    → All (Inside root) paths
    → (any_of is_bare paths ≡ false) × (any_of (λ path. not (starts_with root path)) paths ≡ false)
not_bare_all root [] h = (refl, refl)
not_bare_all root (path ∷ paths) h =
    let (b, s) = not_bare_all root paths h.1 in
    (ground (arith, bare path h.0.0), ground (arith, h.0.1))

-- An upload with a file has a document directory exactly when each of its files is inside it.
pub document_root_iff :
    (root : String) (path : List String) (paths : List (List String))
    → (document_root (path ∷ paths) ≡ inr root) ↔ All (Inside root) (path ∷ paths)
unfolding document_root
document_root_iff root [] paths = (λ h. absurd (ground arith), λ h. absurd (omega (arith, h.0.0)))
document_root_iff root (p ∷ []) paths =
    (λ h. absurd (ground arith), λ h. absurd (omega (arith, h.0.0)))
document_root_iff root (p ∷ q ∷ ps) paths = (
  λ h.
      let same : p ≡ root = ground arith in
      (
        (omega arith, ground (arith, eq_iff p root)),
        all-Inside root paths (ground arith) (ground arith),
      ),
  λ h.
      let (b, s) = not_bare_all root paths h.1 in
      let same : p ≡ root = ground (arith, h.0.1, eq_iff p root) in rw same (ground (arith, b, s)),
)

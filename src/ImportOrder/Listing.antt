-- ===== src/ImportOrder/Listing.antt =====
-- An import that meets no error takes every chapter once, in the order of the numbers.
use dockb.Prelude.{
  ℕ, String, ◌≡◌, refl, sym, ap, ap₂, ◌∙◌, inl, inr, true, false, not, ◌&&◌, Option, none, some,
  List, [], ◌<◌, ◌∷◌, ◌++◌, map, arith, Bool-cases, All,
}
use mathlib.Core.List.{Perm}
use mathlib.Core.List.Perm
use mathlib.Core.Path.{subst}
use Prim.Native.Char.{Char}
use dockb.ImportOrder.{
  File, Directory, Key, le_key, same_key, le_file, sort, parse_act_directory, chapter_sort_key,
  all_results, chapter, character, Yield, Run, then_run, is_last, is_previous, chapters_run,
  le_first, act_run, acts_run, characters_run, discover_chapter_files, same_chapter_number,
  same_act_number,
}
use dockb.ImportOrder.Sorting.{
  Ascending, Before, sort-perm, All-sort, sort-Ascending, le_key_total, le_file_total, Results,
  all_results-Results, result_cases,
}

-- An act with its directory and its chapters.
pub record Act : Type 0 where
  pub number : ℕ
  pub title : String
  pub dir : Directory
  pub chapters : List (Key × File)

-- The next key is a larger one.
abbrev pub Under : Key → List (Key × File) → Type 0
Under k [] = Unit
Under k ((l, g) ∷ rest) = le_key k l && not (same_key l k) ≡ true

abbrev pub Rising : List (Key × File) → Type 0
Rising [] = Unit
Rising ((k, f) ∷ rest) = Under k rest × Rising rest

abbrev pub UnderAct : ℕ → List Act → Type 0
UnderAct n [] = Unit
UnderAct n (a ∷ as') = n < a.number

abbrev pub RisingActs : List Act → Type 0
RisingActs [] = Unit
RisingActs (a ∷ as') = UnderAct a.number as' × RisingActs as'

abbrev pub yields_of : String → List (Key × File) → List Yield
yields_of act [] = []
yields_of act ((k, f) ∷ rest) = (act, chapter, f) ∷ yields_of act rest

abbrev pub all_yields : List Act → List Yield
all_yields [] = []
all_yields (a ∷ as') = yields_of a.title a.chapters ++ all_yields as'

then_run-none :
    (r s : Run)
    → (then_run r s).1 ≡ none
    → (r.1 ≡ none) × (s.1 ≡ none) × ((then_run r s).0 ≡ r.0 ++ s.0)
then_run-none (ys, none) (zs, e) h = (refl, h, refl)
then_run-none (ys, some e) s h = cc

abbrev Fresh : Option Key → List (Key × File) → Type 0
Fresh last [] = Unit
Fresh last ((k, f) ∷ rest) = is_last last k ≡ false

Under-of :
    (k : Key) (f : File) (rest : List (Key × File))
    → Before le_first (k, f) rest
    → Fresh (some k) rest
    → Under k rest
Under-of k f [] b h = tt
Under-of k f ((l, g) ∷ rest) b h = ground arith

chapters_run_ordered :
    (act : String) (last : Option Key) (ks : List (Key × File))
    → Ascending le_first ks
    → (chapters_run act last ks).1 ≡ none
    → ((chapters_run act last ks).0 ≡ yields_of act ks) × Fresh last ks × Rising ks
unfolding chapters_run
chapters_run_ordered act last [] a h = (refl, tt, tt)
chapters_run_ordered act last ((k, f) ∷ rest) a h = elim (Bool-cases (is_last last k)) [
  | inl twice ↦
      let failed : (chapters_run act last ((k, f) ∷ rest)).1 ≡ some (same_chapter_number f.stem) =
        rw (chapters_run, twice) refl in
      absurd (ground (arith, h, failed))
  | inr once ↦
      let next = chapters_run act (some k) rest in
      let here : chapters_run act last ((k, f) ∷ rest)
          ≡ then_run ((act, chapter, f) ∷ [], none) next =
        rw (chapters_run, once) refl in
      let later : next.1 ≡ none = sym (ap (λ (r : Run). r.1) here) ∙ h in
      let (ys, fresh, rising) = chapters_run_ordered act (some k) rest a.1 later in
      (
        ap (λ (r : Run). r.0) here ∙ ap (λ (l : List Yield). (act, chapter, f) ∷ l) ys,
        once,
        (Under-of k f rest a.0 fresh, rising),
      )
]

-- The first act has a larger number.
abbrev LowFirst : ℕ → List (Key × Directory) → Type 0
LowFirst n [] = Unit
LowFirst n ((k, d) ∷ rest) = n < k.0

-- The first act has another number.
abbrev FreshAct : Option ℕ → List (Key × Directory) → Type 0
FreshAct previous [] = Unit
FreshAct previous ((k, d) ∷ rest) = is_previous previous k.0 ≡ false

low_first :
    (k : Key) (d : Directory) (rest : List (Key × Directory))
    → Before le_first (k, d) rest
    → FreshAct (some k.0) rest
    → LowFirst k.0 rest
low_first k d [] b h = tt
low_first k d ((l, e) ∷ rest) b h = ground arith

module _ (upper lower : String → String) (digit_value : Char → Option ℕ) where
  -- An act with its number and all its chapters, each with its own key, in rising order.
  pub record Fits (a : Act) : Type 0 where
    pub numbered : parse_act_directory upper a.dir.name ≡ inr (a.number, a.title)
    pub complete : Perm (map (λ (p : Key × File). p.1) a.chapters) a.dir.files
    pub keyed :
        All (λ (p : Key × File). chapter_sort_key lower digit_value p.1 ≡ inr p.0) a.chapters
    pub rising : Rising a.chapters

  act_run_ordered :
      (key : Key) (dir : Directory)
      → parse_act_directory upper dir.name ≡ inr key
      → (act_run upper lower digit_value key.1
          (all_results (chapter_sort_key lower digit_value) dir.files)).1
        ≡ none
      → (a : Act) × (a.number ≡ key.0)
        × (a.dir ≡ dir)
        × Fits a
        × ((act_run upper lower digit_value key.1
              (all_results (chapter_sort_key lower digit_value) dir.files)).0
            ≡ yields_of a.title a.chapters)
  act_run_ordered key dir parsed h =
      let f = chapter_sort_key lower digit_value in
      elim (result_cases (all_results f dir.files)) [
        | inl (e, fails) ↦
            let failed : some e ≡ none = rw fails at h in absurd (ground (arith, failed))
        | inr (keyed, e) ↦
            let (same, own) : Results f dir.files (inr keyed) =
              rw e at (all_results-Results f dir.files) in
            let ks = sort le_first keyed in
            let clean : (chapters_run key.1 none ks).1 ≡ none = rw e at h in
            let (ys, fresh, rising) =
              chapters_run_ordered key.1 none ks
                (sort-Ascending le_first (λ x y. le_key_total x.0 y.0) keyed) clean in
            (
              record { number = key.0; title = key.1; dir = dir; chapters = ks },
              refl,
              refl,
              record {
                numbered = parsed;
                complete =
                    subst (λ (l : List File). Perm (map (λ (p : Key × File). p.1) ks) l) same
                      (Perm.map (λ (p : Key × File). p.1) (sort-perm le_first keyed));
                keyed = All-sort le_first (λ (p : Key × File). f p.1 ≡ inr p.0) keyed own;
                rising = rising;
              },
              rw e ys,
            )
      ]

  abbrev dirs_of : List (Key × Directory) → List Directory
  dirs_of ds = map (λ (p : Key × Directory). p.1) ds

  abbrev all_dirs : List Act → List Directory
  all_dirs as' = map (λ (a : Act). a.dir) as'

  -- What the acts are before the characters.
  record Acts (ds : List (Key × Directory)) (r : Run) : Type 0 where
    acts : List Act
    dirs : all_dirs acts ≡ dirs_of ds
    first : (n : ℕ) → LowFirst n ds → UnderAct n acts
    fit : All Fits acts
    rising : RisingActs acts
    yields : r.0 ≡ all_yields acts

  acts_run_ordered :
      (previous : Option ℕ) (ds : List (Key × Directory))
      → Ascending le_first ds
      → All (λ (p : Key × Directory). parse_act_directory upper p.1.name ≡ inr p.0) ds
      → (acts_run upper lower digit_value previous ds).1 ≡ none
      → FreshAct previous ds × Acts ds (acts_run upper lower digit_value previous ds)
  unfolding acts_run
  acts_run_ordered previous [] a parsed h = (
    tt,
    record { acts = []; dirs = refl; first = λ n low. tt; fit = tt; rising = tt; yields = refl },
  )
  acts_run_ordered previous (((n, act), dir) ∷ rest) a parsed h =
      elim (Bool-cases (is_previous previous n)) [
        | inl twice ↦
            let failed : (acts_run upper lower digit_value previous (((n, act), dir) ∷ rest)).1
                ≡ some (same_act_number n) =
              rw (acts_run, twice) refl in
            absurd (ground (arith, h, failed))
        | inr once ↦
            let here =
              act_run upper lower digit_value act
                (all_results (chapter_sort_key lower digit_value) dir.files) in
            let next = acts_run upper lower digit_value (some n) rest in
            let step : acts_run upper lower digit_value previous (((n, act), dir) ∷ rest)
                ≡ then_run here next =
              rw (acts_run, once) refl in
            let (fine, later, both) =
              then_run-none here next (sym (ap (λ (r : Run). r.1) step) ∙ h) in
            let (x, number, its_dir, fits, ys) = act_run_ordered (n, act) dir parsed.0 fine in
            let (fresh, others) = acts_run_ordered (some n) rest a.1 parsed.1 later in
            (
              once,
              record {
                acts = x ∷ others.acts;
                dirs = ap₂ (λ (d : Directory) (l : List Directory). d ∷ l) its_dir others.dirs;
                first = λ m low. rw number low;
                fit = (fits, others.fit);
                rising = (
                  rw number (others.first n (low_first (n, act) dir rest a.0 fresh)),
                  others.rising,
                );
                yields =
                    ap (λ (r : Run). r.0) step
                    ∙ both
                    ∙ ap₂ (λ (k l : List Yield). k ++ l) ys others.yields;
              },
            )
      ]

  -- The files in the order in which they are imported.
  pub record Listing (dirs : List Directory) (characters : List File) (ys : List Yield)
      : Type 0 where
    pub acts : List Act
    pub people : List File
    pub every_act : Perm (map (λ (a : Act). a.dir) acts) dirs
    pub fit : All Fits acts
    pub rising : RisingActs acts
    pub every_person : Perm people characters
    pub by_name : Ascending le_file people
    pub in_order : ys ≡ all_yields acts ++ map (λ (f : File). ("", character, f)) people

  -- An import that meets no error takes the act directories by rising numbers, each with all its files
  -- and these by rising keys, the acts and the files each with the number that its own name has, and
  -- then all files of the characters by name.
  pub discover_chapter_files_ordered :
      (dirs : List Directory) (characters : List File)
      → (discover_chapter_files upper lower digit_value dirs characters).1 ≡ none
      → Listing dirs characters (discover_chapter_files upper lower digit_value dirs characters).0
  unfolding discover_chapter_files
  discover_chapter_files_ordered dirs characters h =
      let f = λ (d : Directory). parse_act_directory upper d.name in
      let run = discover_chapter_files upper lower digit_value in
      elim (result_cases (all_results f dirs)) [
        | inl (e, fails) ↦
            let failed : some e ≡ none = rw (discover_chapter_files, fails) at h in
            absurd (ground (arith, failed))
        | inr (named, e) ↦
            let (same, own) : Results f dirs (inr named) = rw e at (all_results-Results f dirs) in
            let ds = sort le_first named in
            let step : run dirs characters
                ≡ then_run (acts_run upper lower digit_value none ds) (characters_run characters) =
              rw (discover_chapter_files, e) refl in
            let (fine, later, both) =
              then_run-none (acts_run upper lower digit_value none ds) (characters_run characters)
                (sym (ap (λ (r : Run). r.1) step) ∙ h) in
            let (fresh, x) =
              acts_run_ordered none ds (sort-Ascending le_first (λ p q. le_key_total p.0 q.0) named)
                (All-sort le_first (λ (p : Key × Directory). f p.1 ≡ inr p.0) named own) fine in
            record {
              acts = x.acts;
              people = sort le_file characters;
              every_act =
                  subst (λ (l : List Directory). Perm l dirs) (sym x.dirs)
                    (subst (λ (l : List Directory). Perm (dirs_of ds) l) same
                      (Perm.map (λ (p : Key × Directory). p.1) (sort-perm le_first named)));
              fit = x.fit;
              rising = x.rising;
              every_person = sort-perm le_file characters;
              by_name = sort-Ascending le_file le_file_total characters;
              in_order =
                  ap (λ (r : Run). r.0) step
                  ∙ both
                  ∙ ap (λ (l : List Yield). l ++ (characters_run characters).0) x.yields;
            }
      ]

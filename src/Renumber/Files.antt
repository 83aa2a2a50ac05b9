-- ===== src/Renumber/Files.antt =====
-- The two passes of a renumber against a renaming of all files at once.
use dockb.Prelude.{
  ℕ, suc, String, ◌≡◌, refl, sym, ap, ◌∙◌, ◌⊎◌, inl, inr, Bool, true, false, Option, none, some,
  List, [], ◌∷◌, map, arith, ◌==◌, eq_iff, eq_refl, if◌then◌else◌, Bool-cases, Option-cases,
  keep_if, any_of, find_first,
}
use dockb.Prelude.Text.{has}
use dockb.Renumber.{
  ChapterRename, File, with_content, Mover, write, with_commit, temp_file, Tree, Step, pass,
  old_path, new_path, is_move, first_pass, second_pass, blocked, second, run_moves, unsafe,
  renumber_chapters,
}
use dockb.Renumber.Passes.{
  all_moved, leaves, enters, Disjoint, target_free, untouched, moved_away, pass_moves_all,
}

module _ (merge_title : String → String → Option String) where
  -- Every file at once: what is moved to a path, with its new title, or else what was there and has
  -- not been moved away.
  abbrev pub arrived : Option ChapterRename → List ChapterRename → Tree → String → Option File
  arrived (some r) rs tree p = elim (tree (old_path merge_title r)) [
    | none ↦ none
    | some f ↦ with_content f (merge_title f.content r.new_title)
  ]
  arrived none rs tree p = if has p (map (old_path merge_title) rs) then none else tree p

  unfoldable pub renamed : List ChapterRename → Tree → Tree
  unfolding find_first
  renamed rs tree p = arrived (find_first (λ r. new_path merge_title r == p) rs) rs tree p

  -- One rename of the plan: its file is there and takes a title, its temp name is free, and no later
  -- rename has its old, temp or new name.
  pub record Plan (i : ℕ) (r : ChapterRename) (rs : List ChapterRename) (tree : Tree) : Type 0 where
    pub content : File
    pub content' : File
    pub is_tracked : content.tracked ≡ true
    pub here : tree (old_path merge_title r) ≡ some content
    pub fits : with_content content (merge_title content.content r.new_title) ≡ some content'
    pub temp_free : tree (temp_file i r) ≡ none
    pub old_once : leaves (old_path merge_title r) (first_pass merge_title (suc i) rs) ≡ false
    pub temp_once : enters (temp_file i r) (first_pass merge_title (suc i) rs) ≡ false
    pub new_once : enters (new_path merge_title r) (second_pass merge_title (suc i) rs) ≡ false

  abbrev pub Plans : ℕ → List ChapterRename → Tree → Type 0
  Plans i [] tree = Unit
  Plans i (r ∷ rs) tree = Plan i r rs tree × Plans (suc i) rs tree

  first_pass-Disjoint :
      (i : ℕ) (rs : List ChapterRename) (tree : Tree)
      → Plans i rs tree
      → Disjoint (first_pass merge_title i rs) tree
  unfolding first_pass
  first_pass-Disjoint i [] tree h = tt
  first_pass-Disjoint i (r ∷ rs) tree h = (
    record {
      content = h.0.content;
      content' = h.0.content;
      is_tracked = h.0.is_tracked;
      here = h.0.here;
      fits = refl;
      free = h.0.temp_free;
      leaves_once = h.0.old_once;
      enters_once = h.0.temp_once;
    },
    first_pass-Disjoint (suc i) rs tree h.1,
  )

  leaves-second_pass :
      (i : ℕ) (rs : List ChapterRename) (p : String)
      → leaves p (second_pass merge_title i rs) ≡ enters p (first_pass merge_title i rs)
  unfolding first_pass second_pass
  leaves-second_pass i [] p = refl
  leaves-second_pass i (r ∷ rs) p = ground (arith, leaves-second_pass (suc i) rs p)

  later_temps :
      (i : ℕ) (r : ChapterRename) (rs : List ChapterRename) (tree tree' : Tree)
      → Plans i (r ∷ rs) tree
      → ((p : String)
          → enters p (first_pass merge_title i (r ∷ rs)) ≡ true
          → tree' p ≡ all_moved (first_pass merge_title i (r ∷ rs)) tree p)
      → (p : String) → enters p (first_pass merge_title (suc i) rs) ≡ true
      → tree' p ≡ all_moved (first_pass merge_title (suc i) rs) tree p
  unfolding first_pass all_moved
  later_temps i r rs tree tree' h f p e = ground (
    arith,
    f p,
    e,
    h.0.temp_once,
    eq_iff (temp_file i r) p,
    eq_iff (old_path merge_title r) p,
    h.0.here,
    target_free (first_pass merge_title (suc i) rs) tree p (first_pass-Disjoint (suc i) rs tree h.1)
        e,
  )

  -- The second pass fits any tree that has the temp files of the first and is free at the new names.
  second_pass-Disjoint :
      (i : ℕ) (rs : List ChapterRename) (tree tree' : Tree)
      → Plans i rs tree
      → ((p : String)
          → enters p (first_pass merge_title i rs) ≡ true
          → tree' p ≡ all_moved (first_pass merge_title i rs) tree p)
      → ((p : String) → enters p (second_pass merge_title i rs) ≡ true → tree' p ≡ none)
      → Disjoint (second_pass merge_title i rs) tree'
  unfolding first_pass second_pass all_moved
  second_pass-Disjoint i [] tree tree' h f g = tt
  second_pass-Disjoint i (r ∷ rs) tree tree' h f g = (
    record {
      content = h.0.content;
      content' = h.0.content';
      is_tracked = h.0.is_tracked;
      here = ground (arith, f (temp_file i r), eq_refl (temp_file i r), h.0.here);
      fits = h.0.fits;
      free = g (new_path merge_title r) (ground (arith, eq_refl (new_path merge_title r)));
      leaves_once = leaves-second_pass (suc i) rs (temp_file i r) ∙ h.0.temp_once;
      enters_once = h.0.new_once;
    },
    second_pass-Disjoint (suc i) rs tree tree' h.1 (later_temps i r rs tree tree' h f)
        (λ p e. g p (ground (arith, e))),
  )

  -- Away from the temp files, the first pass only takes files away.
  first_pass_takes :
      (i : ℕ) (rs : List ChapterRename) (tree : Tree) (p : String)
      → enters p (first_pass merge_title i rs) ≡ false
      → all_moved (first_pass merge_title i rs) tree p
        ≡ (if has p (map (old_path merge_title) rs) then none else tree p)
  unfolding first_pass all_moved
  first_pass_takes i [] tree p h = refl
  first_pass_takes i (r ∷ rs) tree p h = ground (arith, first_pass_takes (suc i) rs tree p)

  not_found :
      (i : ℕ) (rs : List ChapterRename) (p : String)
      → enters p (second_pass merge_title i rs) ≡ false
      → find_first (λ r. new_path merge_title r == p) rs ≡ none
  unfolding second_pass find_first
  not_found i [] p h = refl
  not_found i (r ∷ rs) p h = ground (arith, not_found (suc i) rs p)

  -- The second pass puts each content, with its title, at the new name.
  second_pass_puts :
      (i : ℕ) (rs whole : List ChapterRename) (tree tree' : Tree) (p : String)
      → Plans i rs tree
      → Disjoint (second_pass merge_title i rs) tree'
      → ((q : String)
          → enters q (first_pass merge_title i rs) ≡ true
          → tree' q ≡ all_moved (first_pass merge_title i rs) tree q)
      → enters p (second_pass merge_title i rs) ≡ true
      → all_moved (second_pass merge_title i rs) tree' p
        ≡ arrived (find_first (λ r. new_path merge_title r == p) rs) whole tree p
  unfolding first_pass second_pass all_moved find_first
  second_pass_puts i [] whole tree tree' p h d f e = cc
  second_pass_puts i (r ∷ rs) whole tree tree' p h d f e =
      elim (Bool-cases (new_path merge_title r == p)) [
        | inl here ↦ ground (arith, here, f (temp_file i r), eq_refl (temp_file i r), h.0.here)
        | inr later ↦
            let tail : enters p (second_pass merge_title (suc i) rs) ≡ true =
              ground (arith, later) in
            ground (
              arith,
              later,
              second_pass_puts (suc i) rs whole tree tree' p h.1 d.1
                  (later_temps i r rs tree tree' h f) tail,
              target_free (second_pass merge_title (suc i) rs) tree' p d.1 tail,
              d.0.here,
              eq_iff (temp_file i r) p,
            )
      ]

  -- What the guard leaves: a new name is an old name of the plan, or no file.
  name_free :
      (i : ℕ) (rs moves : List ChapterRename) (tree : Tree) (p : String)
      → any_of (blocked merge_title moves tree) rs ≡ false
      → enters p (second_pass merge_title i rs) ≡ true
      → (has p (map (old_path merge_title) moves) ≡ true) ⊎ (tree p ≡ none)
  unfolding second_pass
  name_free i [] moves tree p h e = cc
  name_free i (r ∷ rs) moves tree p h e = elim (Bool-cases (new_path merge_title r == p)) [
    | inr other ↦ name_free (suc i) rs moves tree p (ground arith) (ground (arith, other))
    | inl same ↦
        let here : new_path merge_title r ≡ p = (eq_iff (new_path merge_title r) p).0 same in
        let guard : blocked merge_title moves tree r ≡ false = ground arith in
        let guard' = rw here at guard in
        elim (Bool-cases (has p (map (old_path merge_title) moves))) [
          | inl old ↦ inl old
          | inr new ↦ elim (Option-cases (tree p)) [
            | inl free ↦ inr free
            | inr (content, there) ↦ absurd (ground (arith, guard', new, there))
          ]
        ]
  ]

  abbrev pub Exact : List ChapterRename → Tree → Tree × Bool → Type 0
  Exact rs tree x = (x.1 ≡ true) × ((p : String) → x.0 p ≡ renamed rs tree p)

module _ (merge_title : String → String → Option String) (git_mv : Mover)
    (moves : (source target : String) (f : File) (tree : Tree)
      → tree source ≡ some f
      → f.tracked ≡ true
      → tree target ≡ none
      → git_mv source target tree ≡ some (write target (some f) (write source none tree)))
    (git_commit : Tree → Bool) (commits : (tree : Tree) → git_commit tree ≡ true) where
  both_passes :
      (one two : List Step) (x : Tree × ℕ × Bool)
      → x.2 ≡ true
      → (pass git_mv two x.0).2 ≡ true
      → second merge_title git_mv one two x ≡ ((pass git_mv two x.0).0, true)
  both_passes one two (tree, n, false) h e = cc
  both_passes one two (tree, n, true) h e = ground (arith, e)

  run_moves-Exact :
      (rs : List ChapterRename) (tree : Tree)
      → Plans merge_title 0 rs tree
      → any_of (blocked merge_title rs tree) rs ≡ false
      → ((p : String)
          → enters p (second_pass merge_title 0 rs) ≡ true
          → enters p (first_pass merge_title 0 rs) ≡ false)
      → Exact merge_title rs tree (run_moves merge_title git_mv true git_commit rs tree)
  unfolding renamed find_first
  run_moves-Exact [] tree h guard apart = (refl, λ p. refl)
  run_moves-Exact (r ∷ rs') tree h guard apart =
      let rs = r ∷ rs' in
      let one = first_pass merge_title 0 rs in
      let two = second_pass merge_title 0 rs in
      let tree' = (pass git_mv one tree).0 in
      let (n, ok, result) =
        pass_moves_all git_mv moves one tree (first_pass-Disjoint merge_title 0 rs tree h) in
      let free : (p : String) → enters p two ≡ true → tree' p ≡ none = λ p e.
        let took = first_pass_takes merge_title 0 rs tree p (apart p e) in
        elim (name_free merge_title 0 rs rs tree p guard e) [
          | inl old ↦ result p ∙ took ∙ rw old refl
          | inr new ↦ result p ∙ took ∙ ground (arith, new)
        ] in
      let d = second_pass-Disjoint merge_title 0 rs tree tree' h (λ p e. result p) free in
      let (n', ok', result') = pass_moves_all git_mv moves two tree' d in
      let whole : run_moves merge_title git_mv true git_commit rs tree
          ≡ ((pass git_mv two tree').0, true) =
        rw guard (
          ap (with_commit merge_title git_commit)
            (both_passes one two (pass git_mv one tree) ok ok')
          ∙ ap (λ (b : Bool). ((pass git_mv two tree').0, b))
              (commits (pass git_mv two tree').0)) in
      rw whole (
        refl,
        λ p. result' p ∙ elim (Bool-cases (enters p two)) [
          | inl entered ↦
              second_pass_puts merge_title 0 rs rs tree tree' p h d (λ q e. result q) entered
          | inr apart' ↦ elim (Bool-cases (leaves p two)) [
            | inl temp ↦
                let entered : enters p one ≡ true =
                  sym (leaves-second_pass merge_title 0 rs p) ∙ temp in
                let gone =
                  target_free one tree p (first_pass-Disjoint merge_title 0 rs tree h) entered in
                moved_away two tree' p temp apart'
                ∙ rw (not_found merge_title 0 rs p apart') (ground (arith, gone))
            | inr other ↦
                let away : enters p one ≡ false =
                  sym (leaves-second_pass merge_title 0 rs p) ∙ other in
                untouched two tree' p other apart'
                ∙ result p
                ∙ first_pass_takes merge_title 0 rs tree p away
                ∙ rw (not_found merge_title 0 rs p apart') refl
          ]
        ],
      )

  -- If git moves a tracked file to a free name, the repository is there and its commits go
  -- through, all renamed files are tracked, the titles are safe, no rename stands in the way of
  -- another, none of the temp names is a new name, and no new name is a file that stays, then a
  -- renumber returns, and every file is where all renames at once put it.
  pub renumber_chapters-Exact :
      (renames : List ChapterRename) (tree : Tree)
      → any_of (unsafe merge_title) renames ≡ false
      → Plans merge_title 0 (keep_if (is_move merge_title tree) renames) tree
      → any_of
          (blocked merge_title (keep_if (is_move merge_title tree) renames) tree)
          (keep_if (is_move merge_title tree) renames)
        ≡ false
      → ((p : String)
          → enters p (second_pass merge_title 0 (keep_if (is_move merge_title tree) renames)) ≡ true
          → enters p (first_pass merge_title 0 (keep_if (is_move merge_title tree) renames))
            ≡ false)
      → Exact merge_title
          (keep_if (is_move merge_title tree) renames)
          tree
          (renumber_chapters merge_title git_mv true git_commit renames tree)
  unfolding renumber_chapters
  renumber_chapters-Exact renames tree safe plans free apart =
      rw safe (run_moves-Exact (keep_if (is_move merge_title tree) renames) tree plans free apart)

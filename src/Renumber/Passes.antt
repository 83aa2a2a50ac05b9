-- ===== src/Renumber/Passes.antt =====
-- One pass of moves at once: its result as a function of the tree before it.
use dockb.Prelude.{
  suc, String, ◌≡◌, refl, ◌∙◌, inl, inr, Bool, true, false, ◌||◌, Option, none, some, List, [], ◌∷◌,
  arith, ◌==◌, eq_iff, eq_refl, if◌then◌else◌, Bool-cases, Option-cases, length,
}
use dockb.Renumber.{File, Tree, Mover, write, Step, pass}

-- What a move leaves at its target.
abbrev pub content_of : Step → Tree → Option File
content_of s tree = elim (tree s.source) [ none ↦ none | some content ↦ s.rewrite content ]

-- The tree after all moves at once.
unfoldable pub all_moved : List Step → Tree → Tree
all_moved [] tree p = tree p
all_moved (s ∷ ss) tree p =
    let rest = all_moved ss tree p in
    if s.target == p then content_of s tree else if s.source == p then none else rest

abbrev pub leaves : String → List Step → Bool
leaves p [] = false
leaves p (s ∷ ss) = (s.source == p) || leaves p ss

abbrev pub enters : String → List Step → Bool
enters p [] = false
enters p (s ∷ ss) = (s.target == p) || enters p ss

-- The moves of a pass do not meet: each has a file whose content can be rewritten, a free target,
-- and no other move has its source or its target.
pub record Apart (s : Step) (ss : List Step) (tree : Tree) : Type 0 where
  pub content : File
  pub content' : File
  pub is_tracked : content.tracked ≡ true
  pub here : tree s.source ≡ some content
  pub fits : s.rewrite content ≡ some content'
  pub free : tree s.target ≡ none
  pub leaves_once : leaves s.source ss ≡ false
  pub enters_once : enters s.target ss ≡ false

abbrev pub Disjoint : List Step → Tree → Type 0
Disjoint [] tree = Unit
Disjoint (s ∷ ss) tree = Apart s ss tree × Disjoint ss tree

abbrev after : Step → Option File → Tree → Tree
after s content tree p = if s.target == p then content else if s.source == p then none else tree p

pub untouched :
    (ss : List Step) (tree : Tree) (p : String)
    → leaves p ss ≡ false
    → enters p ss ≡ false
    → all_moved ss tree p ≡ tree p
unfolding all_moved
untouched [] tree p hl he = refl
untouched (s ∷ ss) tree p hl he = ground (arith, untouched ss tree p)

pub moved_away :
    (ss : List Step) (tree : Tree) (p : String)
    → leaves p ss ≡ true
    → enters p ss ≡ false
    → all_moved ss tree p ≡ none
unfolding all_moved
moved_away [] tree p hl he = cc
moved_away (s ∷ ss) tree p hl he = elim (Bool-cases (s.source == p)) [
  | inl same ↦ ground (arith, same)
  | inr other ↦ ground (arith, other, moved_away ss tree p (ground (arith, other)) (ground arith))
]

-- No move has the source of one that is apart as its target.
pub not_entered :
    (ss : List Step) (tree : Tree) (p : String) (content : File)
    → Disjoint ss tree
    → tree p ≡ some content
    → enters p ss ≡ false
not_entered [] tree p content d h = refl
not_entered (s ∷ ss) tree p content d h = elim (Bool-cases (s.target == p)) [
  | inr other ↦ ground (arith, not_entered ss tree p content d.1 h)
  | inl same ↦
      let e : s.target ≡ p = (eq_iff s.target p).0 same in
      let free : tree p ≡ none = rw e at d.0.free in absurd (ground (arith, free))
]

pub not_left :
    (ss : List Step) (tree : Tree) (p : String)
    → Disjoint ss tree
    → tree p ≡ none
    → leaves p ss ≡ false
not_left [] tree p d h = refl
not_left (s ∷ ss) tree p d h = elim (Bool-cases (s.source == p)) [
  | inr other ↦ ground (arith, not_left ss tree p d.1 h)
  | inl same ↦
      let e : s.source ≡ p = (eq_iff s.source p).0 same in
      let here : tree p ≡ some d.0.content = rw e at d.0.here in absurd (ground (arith, here))
]

-- A tree that agrees at the sources and is free at the targets.
carries :
    (ss : List Step) (tree tree' : Tree)
    → Disjoint ss tree
    → ((p : String) → leaves p ss ≡ true → tree' p ≡ tree p)
    → ((p : String) → enters p ss ≡ true → tree' p ≡ none)
    → Disjoint ss tree'
carries [] tree tree' d f g = tt
carries (s ∷ ss) tree tree' d f g = (
  record {
    content = d.0.content;
    content' = d.0.content';
    is_tracked = d.0.is_tracked;
    here = f s.source (ground (arith, eq_refl s.source)) ∙ d.0.here;
    fits = d.0.fits;
    free = g s.target (ground (arith, eq_refl s.target));
    leaves_once = d.0.leaves_once;
    enters_once = d.0.enters_once;
  },
  carries ss tree tree' d.1 (λ p h. f p (ground (arith, h))) (λ p h. g p (ground (arith, h))),
)

agree :
    (ss : List Step) (tree tree' : Tree) (p : String)
    → ((q : String) → leaves q ss ≡ true → tree' q ≡ tree q)
    → tree' p ≡ tree p
    → all_moved ss tree' p ≡ all_moved ss tree p
unfolding all_moved
agree [] tree tree' p f e = e
agree (s ∷ ss) tree tree' p f e =
    let same = f s.source (ground (arith, eq_refl s.source)) in
    let rest = agree ss tree tree' p (λ q h. f q (ground (arith, h))) e in
    ground (arith, same, rest)

pub target_free :
    (ss : List Step) (tree : Tree) (p : String)
    → Disjoint ss tree
    → enters p ss ≡ true
    → tree p ≡ none
target_free ss tree p d h = elim (Option-cases (tree p)) [
  | inl free ↦ free
  | inr (content, here) ↦ absurd (ground (arith, not_entered ss tree p content d here))
]

-- One move and then the others are all moves at once.
all_moved-after :
    (s : Step) (ss : List Step) (tree tree' : Tree) (d : Disjoint (s ∷ ss) tree)
    → ((p : String) → tree' p ≡ after s (some d.0.content') tree p)
    → ((p : String) → leaves p ss ≡ true → tree' p ≡ tree p)
    → (p : String) → all_moved ss tree' p ≡ all_moved (s ∷ ss) tree p
unfolding all_moved
all_moved-after s ss tree tree' d at kept p = elim (Bool-cases (s.target == p)) [
  | inl same ↦
      let e : s.target ≡ p = (eq_iff s.target p).0 same in
      let free : tree p ≡ none = rw e at d.0.free in
      let once : enters p ss ≡ false = rw e at d.0.enters_once in
      ground (
        arith,
        same,
        untouched ss tree' p (not_left ss tree p d.1 free) once,
        at p,
        d.0.here,
        d.0.fits,
      )
  | inr other ↦ elim (Bool-cases (s.source == p)) [
    | inl same ↦
        let e : s.source ≡ p = (eq_iff s.source p).0 same in
        let here : tree p ≡ some d.0.content = rw e at d.0.here in
        let once : leaves p ss ≡ false = rw e at d.0.leaves_once in
        ground (
          arith,
          same,
          other,
          untouched ss tree' p once (not_entered ss tree p d.0.content d.1 here),
          at p,
        )
    | inr apart ↦ ground (arith, other, apart, agree ss tree tree' p kept (ground (arith, at p)))
  ]
]

-- Moves that do not meet all go through, and the tree after them is the one with all moved at once.
pub pass_moves_all :
    (git_mv : Mover)
    → ((source target : String) (f : File) (tree : Tree)
        → tree source ≡ some f
        → f.tracked ≡ true
        → tree target ≡ none
        → git_mv source target tree ≡ some (write target (some f) (write source none tree)))
    → (ss : List Step) (tree : Tree) → Disjoint ss tree
    → ((pass git_mv ss tree).1 ≡ length ss)
      × ((pass git_mv ss tree).2 ≡ true)
      × ((p : String) → (pass git_mv ss tree).0 p ≡ all_moved ss tree p)
unfolding pass all_moved
pass_moves_all git_mv moves [] tree d = (refl, refl, λ p. refl)
pass_moves_all git_mv moves (s ∷ ss) tree d =
    let a = d.0 in
    let moved = write s.target (some a.content) (write s.source none tree) in
    let tree' = write s.target (some a.content') moved in
    let there : moved s.target ≡ some a.content = ground (arith, eq_refl s.target) in
    let step : pass git_mv (s ∷ ss) tree
        ≡ ((pass git_mv ss tree').0, suc (pass git_mv ss tree').1, (pass git_mv ss tree').2) =
      ground
        (arith, moves s.source s.target a.content tree a.here a.is_tracked a.free, there, a.fits) in
    let at : (p : String) → tree' p ≡ after s (some a.content') tree p = λ p. ground arith in
    let kept : (p : String) → leaves p ss ≡ true → tree' p ≡ tree p = λ p h. ground (
      arith,
      at p,
      h,
      a.leaves_once,
      eq_iff s.source p,
      eq_iff s.target p,
      not_left ss tree s.target d.1 a.free,
    ) in
    let free : (p : String) → enters p ss ≡ true → tree' p ≡ none = λ p h.
      ground (arith, at p, h, a.enters_once, eq_iff s.target p, target_free ss tree p d.1 h) in
    let (count, ok, result) =
      pass_moves_all git_mv moves ss tree' (carries ss tree tree' d.1 kept free) in
    (
      ground (arith, step, count),
      ground (arith, step, ok),
      λ p. ground (arith, step, result p, all_moved-after s ss tree tree' d at kept p),
    )

-- ===== src/Collections/Removal.antt =====
-- Removing models from a collection.
use dockb.Prelude.{
  ℕ, ◌≡◌, refl, inl, inr, true, false, none, some, [], ◌∷◌, arith, eqb, if◌then◌else◌, eqb_iff,
  Bool-cases, Option-cases, any_of, All,
}
use dockb.Dict.{Dict, pop}
use dockb.Models.{on_deleted}
use dockb.Collections.{
  Node, Heap, with_children, unparented, unparent, delete_child, unparent_all, clear,
}
use dockb.Collections.Moves.{ChildOf, found_first}

-- The model after its removal from its parent.
abbrev pub removed : Node → Node
removed node = record node { parent = none; state = on_deleted node.state }

-- Deleting a child takes its entry out, leaves it without a parent and in the state of a deletion,
-- and changes no other model.
pub delete_child-removes :
    (depth p r : ℕ) (h : Heap)
    → ChildOf p r h
    → eqb p r ≡ false
    → ((delete_child depth p (h r).id h).1 ≡ true)
      × ((i : ℕ)
          → (delete_child depth p (h r).id h).0 i ≡ (
              if eqb p i
              then with_children (pop (h r).id (h p).children) (h p)
              else if eqb r i
              then removed (h r)
              else h i))
unfolding unparent
delete_child-removes depth p r h c pr =
    rw (found_first depth p r (h r).id h c.found)
      (refl, λ i. ground (arith, c.parent, eqb_iff p p, eqb_iff p i, eqb_iff r i))

one_of :
    (p i : ℕ) (cs : Dict ℕ) (h : Heap)
    → All (λ c. (h c.1).parent ≡ some p) cs
    → any_of (λ c. eqb c.1 i) cs ≡ true
    → (h i).parent ≡ some p
one_of p i [] h owned e = cc
one_of p i (c ∷ cs) h owned e = elim (Bool-cases (eqb c.1 i)) [
  | inl here ↦ let same : c.1 ≡ i = ground (arith, eqb_iff c.1 i) in rw same at owned.0
  | inr other ↦ one_of p i cs h owned.1 (ground arith)
]

unparented_idem : (p : ℕ) (n : Node) → unparented p (unparented p n) ≡ unparented p n
unparented_idem p n = elim (Option-cases n.parent) [
  | inl none' ↦ ground arith
  | inr (q, e) ↦ ground arith
]

unparent_all-at :
    (p : ℕ) (cs : Dict ℕ) (h : Heap) (i : ℕ)
    → unparent_all p cs h i ≡ (if any_of (λ c. eqb c.1 i) cs then unparented p (h i) else h i)
unfolding unparent_all unparent
unparent_all-at p [] h i = refl
unparent_all-at p (c ∷ cs) h i =
    ground
      (arith, unparent_all-at p cs (unparent c.1 p h) i, eqb_iff c.1 i, unparented_idem p (h i))

-- Clearing a model leaves it no children, and each child without a parent and in the state of a
-- deletion; no other model changes.
pub clear_exact :
    (p : ℕ) (h : Heap)
    → any_of (λ c. eqb c.1 p) (h p).children ≡ false
    → All (λ c. (h c.1).parent ≡ some p) (h p).children
    → (i : ℕ)
    → clear p h i ≡ (
        if eqb p i
        then with_children [] (h p)
        else if any_of (λ c. eqb c.1 i) (h p).children
        then removed (h i)
        else h i)
unfolding clear
clear_exact p h apart owned i = ground (
  arith,
  unparent_all-at p (h p).children h p,
  unparent_all-at p (h p).children h i,
  one_of p i (h p).children h owned,
  eqb_iff p p,
)

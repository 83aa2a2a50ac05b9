-- ===== src/Collections/Moves.antt =====
-- Moving a model: what an insertion does to the collections and to the models.
use dockb.Prelude.{
  ℕ, zero, suc, String, ◌≡◌, refl, ap, Bool, true, false, none, some, [], ◌∷◌, ◌++◌, arith, eq_refl,
  eqb, if◌then◌else◌, eqb_iff,
}
use dockb.Dict.{Dict, get, set, pop, member, member-get}
use dockb.Collections.{
  Heap, write, with_parent, with_children, unparent, delete, delete_child, adopt, put, append,
  InsertionMode, first, last, after, insert_after, insert,
}

-- The children after an insertion.
abbrev pub placed : InsertionMode → String → ℕ → Dict ℕ → Dict ℕ
placed first id r cs = (id, r) ∷ cs
placed last id r cs = cs ++ (id, r) ∷ []
placed (after none) id r cs = cs
placed (after (some key)) id r cs = insert_after key id r cs

set_new :
    (id : String) (r : ℕ) (cs : Dict ℕ) → member id cs ≡ false → set id r cs ≡ cs ++ (id, r) ∷ []
unfolding set member
set_new id r [] h = refl
set_new id r ((k, c) ∷ cs) h = ground (arith, set_new id r cs)

-- The model r is the child of q under its id.
pub record ChildOf (q r : ℕ) (h : Heap) : Type 0 where
  pub found : get (h r).id (h q).children ≡ some r
  pub parent : (h r).parent ≡ some q

pub found_first :
    (depth q r : ℕ) (id : String) (h : Heap)
    → get id (h q).children ≡ some r
    → delete_child depth q id h ≡ (unparent r q (put q (pop id (h q).children) h), true)
unfolding delete_child delete
found_first zero q r id h e = ground (arith, e)
found_first (suc depth) q r id h e = ground (arith, e)

-- The model after it left its old parent and joined the new one, pointwise.
adopt-moves :
    (depth p q r : ℕ) (cs : Dict ℕ) (h : Heap)
    → ChildOf q r h
    → eqb p q ≡ false
    → eqb p r ≡ false
    → eqb q r ≡ false
    → (i : ℕ)
    → adopt depth r p (put p cs h) i ≡ (
        if eqb p i
        then with_children cs (h p)
        else if eqb q i
        then with_children (pop (h r).id (h q).children) (h q)
        else if eqb r i
        then with_parent (some p) (h r)
        else h i)
unfolding adopt unparent
adopt-moves depth p q r cs h c pq pr qr i =
    let h1 = put p cs h in
    let h2 = write r (with_parent (some p) (h1 r)) h1 in
    let self : eqb r r ≡ true = ground (arith, eqb_iff r r) in
    let rp : eqb r p ≡ false = ground (arith, eqb_iff p r, eqb_iff r p) in
    let rq : eqb r q ≡ false = ground (arith, eqb_iff q r, eqb_iff r q) in
    let gone : (delete_child depth q (h r).id h2).0
        ≡ unparent r q (put q (pop (h r).id (h2 q).children) h2) =
      ap (λ x. x.0) (found_first depth q r (h r).id h2 (ground (arith, c.found))) in
    let old : (h1 r).parent ≡ some q = ground (arith, c.parent) in
    let h3 = unparent r q (put q (pop (h r).id (h2 q).children) h2) in
    let whole : adopt depth r p h1 ≡ write r (with_parent (some p) (h3 r)) h3 =
      ground (arith, old, gone) in
    rw whole (ground (arith, eqb_iff p i, eqb_iff q i, eqb_iff r i))

-- The heap after the model r has moved from q to p, with `cs` as the children of p.
abbrev pub moved : ℕ → ℕ → ℕ → Dict ℕ → Heap → Heap
moved p q r cs h i =
    if eqb p i
    then with_children cs (h p)
    else if eqb q i
    then with_children (pop (h r).id (h q).children) (h q)
    else if eqb r i
    then with_parent (some p) (h r)
    else h i

-- The key of AFTER is there.
abbrev pub fits : InsertionMode → Dict ℕ → Bool
fits first cs = true
fits last cs = true
fits (after none) cs = false
fits (after (some key)) cs = member key cs

-- Inserting the child of one model into another puts it where the mode says, takes it out of the
-- first model's children, and gives it the new parent. It is not marked as deleted, and no other
-- model changes.
pub insert_moves :
    (depth p q r : ℕ) (mode : InsertionMode) (h : Heap)
    → ChildOf q r h
    → eqb p q ≡ false
    → eqb p r ≡ false
    → eqb q r ≡ false
    → member (h r).id (h p).children ≡ false
    → fits mode (h p).children ≡ true
    → (h' : Heap) × (insert depth p r mode h ≡ some h')
      × ((i : ℕ) → h' i ≡ moved p q r (placed mode (h r).id r (h p).children) h i)
unfolding insert append
insert_moves depth p q r first h c pq pr qr fresh ok =
    let cs = ((h r).id, r) ∷ (h p).children in
    (adopt depth r p (put p cs h), ground arith, adopt-moves depth p q r cs h c pq pr qr)
insert_moves depth p q r last h c pq pr qr fresh ok =
    let cs = (h p).children ++ ((h r).id, r) ∷ [] in
    let same = set_new (h r).id r (h p).children fresh in
    (
      adopt depth r p (put p cs h),
      ground (arith, same, member-get (h r).id (h p).children),
      adopt-moves depth p q r cs h c pq pr qr,
    )
insert_moves depth p q r (after none) h c pq pr qr fresh ok = cc
insert_moves depth p q r (after (some key)) h c pq pr qr fresh ok =
    let cs = insert_after key (h r).id r (h p).children in
    (adopt depth r p (put p cs h), ground arith, adopt-moves depth p q r cs h c pq pr qr)

no_key :
    (key id : String) (r : ℕ) (cs : Dict ℕ) → member key cs ≡ false → insert_after key id r cs ≡ cs
unfolding member insert_after
no_key key id r [] h = refl
no_key key id r ((k, c) ∷ cs) h = ground (arith, no_key key id r cs)

-- With keys that are unique, AFTER puts the new child right behind the one with the key and keeps
-- the order of the others.
pub insert_after_behind :
    (key id : String) (r c : ℕ) (front back : Dict ℕ)
    → member key front ≡ false
    → member key back ≡ false
    → insert_after key id r (front ++ (key, c) ∷ back) ≡ front ++ (key, c) ∷ (id, r) ∷ back
unfolding member insert_after
insert_after_behind key id r c [] back hf hb = ground (arith, eq_refl key, no_key key id r back hb)
insert_after_behind key id r c ((k, d) ∷ front) back hf hb =
    ground (arith, insert_after_behind key id r c front back)

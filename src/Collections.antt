-- ===== src/Collections.antt =====
-- src/dockb/models/utils/dockb_collection.py, with `delete_child` of src/dockb/models/document.py,
-- chapter.py, paragraph.py and sentence.py: the ordered children of a model and their parents.
-- Models are shared objects, given by references into a heap. A collection is modelled as the field
-- of the model that holds it, so its own parent is that model; models are equal when they are one
-- object, as their ids are unique. The listeners of `on_deleted` are left out.
pub mod Moves
pub mod Removal
mod Tests
use dockb.Prelude.{
  ℕ, zero, suc, String, Bool, true, false, Option, none, some, List, [], ◌∷◌, ◌==◌, eqb,
  if◌then◌else◌,
}
use dockb.Dict.{Dict, get, set, pop, member}
use dockb.Models.{DataState, on_deleted}

pub record Node : Type 0 where
  pub id : String
  pub state : DataState
  pub parent : Option ℕ
  pub children : Dict ℕ

abbrev pub Heap : Type 0
Heap = ℕ → Node

abbrev pub write : ℕ → Node → Heap → Heap
write r node h r' = if eqb r r' then node else h r'

abbrev pub with_parent : Option ℕ → Node → Node
with_parent parent node = record node { parent = parent }

abbrev pub with_children : Dict ℕ → Node → Node
with_children children node = record node { children = children }

abbrev pub mark_deleted : Node → Node
mark_deleted node = record node { state = on_deleted node.state }

-- `item.set_parent(container, None)`
abbrev pub unparented : ℕ → Node → Node
unparented container node = elim node.parent [
  | none ↦ with_parent none node
  | some previous ↦
      if eqb previous container then mark_deleted (with_parent none node) else with_parent none node
]

unfoldable pub unparent : ℕ → ℕ → Heap → Heap
unparent r container h = write r (unparented container (h r)) h

-- `DockbCollection.delete` on the children of `p`
abbrev pub delete_found : ℕ → String → Option ℕ → Heap → Heap × Bool
delete_found p key none h = (h, false)
delete_found p key (some r) h =
    (unparent r p (write p (with_children (pop key (h p).children) (h p)) h), true)

unfoldable pub delete : ℕ → String → Heap → Heap × Bool
delete p key h = delete_found p key (get key (h p).children) h

-- `delete_child`: the model's own children, then those of each child in turn; `depth` counts the
-- levels of children below the model's own.
unfoldable pub first_deleted : (ℕ → Heap → Heap × Bool) → Dict ℕ → Heap → Heap × Bool
first_deleted delete_in [] h = (h, false)
first_deleted delete_in (c ∷ cs) h =
    let (h', found) = delete_in c.1 h in if found then (h', true) else first_deleted delete_in cs h'

unfoldable pub delete_child : ℕ → ℕ → String → Heap → Heap × Bool
delete_child zero p key h = delete p key h
delete_child (suc depth) p key h =
    let (h', found) = delete p key h in
    if found then (h', true) else first_deleted (λ c. delete_child depth c key) (h' p).children h'

-- `item.set_parent(p, p)`: an item that is the child of another model is taken out of it.
abbrev pub adopted : ℕ → ℕ → ℕ → Option ℕ → Heap → Heap
adopted depth r p none h = h
adopted depth r p (some previous) h =
    if eqb p previous
    then h
    else let h' = (delete_child depth previous (h r).id h).0 in
      write r (with_parent (some p) (h' r)) h'

unfoldable pub adopt : ℕ → ℕ → ℕ → Heap → Heap
adopt depth r p h = adopted depth r p (h r).parent (write r (with_parent (some p) (h r)) h)

abbrev pub put : ℕ → Dict ℕ → Heap → Heap
put p children h = write p (with_children children (h p)) h

-- `DockbCollection.append`: `none` is the ValueError for an item that is there already
abbrev pub append_at : ℕ → ℕ → ℕ → Option ℕ → Heap → Option Heap
append_at depth p r none h = some (adopt depth r p (put p (set (h r).id r (h p).children) h))
append_at depth p r (some old) h =
    if eqb old r
    then none
    else some (adopt depth r p (unparent old p (put p (set (h r).id r (h p).children) h)))

unfoldable pub append : ℕ → ℕ → ℕ → Heap → Option Heap
append depth p r h = append_at depth p r (get (h r).id (h p).children) h

-- `InsertionMode`, with the key of AFTER
pub data InsertionMode : Type 0 where
  first : InsertionMode
  last : InsertionMode
  after : Option String → InsertionMode

-- the loop of AFTER
unfoldable pub insert_after : String → String → ℕ → Dict ℕ → Dict ℕ
insert_after key id r [] = []
insert_after key id r ((k, c) ∷ cs) =
    let rest = insert_after key id r cs in
    if k == key then (k, c) ∷ (id, r) ∷ rest else (k, c) ∷ rest

-- `DockbCollection.insert`: `none` is the KeyError
abbrev pub insert_new : ℕ → ℕ → ℕ → InsertionMode → Heap → Option Heap
insert_new depth p r first h = some (adopt depth r p (put p (((h r).id, r) ∷ (h p).children) h))
insert_new depth p r last h = append depth p r h
insert_new depth p r (after none) h = none
insert_new depth p r (after (some key)) h =
    if member key (h p).children
    then some (adopt depth r p (put p (insert_after key (h r).id r (h p).children) h))
    else none

unfoldable pub insert : ℕ → ℕ → ℕ → InsertionMode → Heap → Option Heap
insert depth p r mode h =
    if member (h r).id (h p).children then none else insert_new depth p r mode h

-- `DockbCollection.clear`
unfoldable pub unparent_all : ℕ → Dict ℕ → Heap → Heap
unparent_all p [] h = h
unparent_all p (c ∷ cs) h = unparent_all p cs (unparent c.1 p h)

unfoldable pub clear : ℕ → Heap → Heap
clear p h = put p [] (unparent_all p (h p).children h)

-- `DockbCollection.extend`
unfoldable pub extend : ℕ → ℕ → List ℕ → Heap → Option Heap
extend depth p [] h = some h
extend depth p (r ∷ rs) h = elim (append depth p r h) [
  | none ↦ none
  | some h' ↦ extend depth p rs h'
]

-- `collection[:] = items`
unfoldable pub replace : ℕ → ℕ → List ℕ → Heap → Option Heap
replace depth p rs h = extend depth p rs (clear p h)

-- ===== src/Models/Lifecycle.antt =====
-- What a row of the database needs, over a model's whole life in memory.
use dockb.Prelude.{ℕ, ◌≡◌, Bool, true, false, some, List, [], ◌∷◌, arith}
use dockb.Models.{
  DataState, sync, new, changed, deleted, nothing, Model, on_changed, on_deleted, Write, update,
  delete, save_query,
}

-- An edit, or the removal from the parent.
pub data Event : Type 0 where
  edit remove : Event

unfoldable pub step : Event → DataState → DataState
step edit s = on_changed s
step remove s = on_deleted s

-- the events in the order in which they happen
unfoldable pub after : List Event → DataState → DataState
after [] s = s
after (e ∷ es) s = after es (step e s)

-- The states that say that the database has a row for the model.
abbrev pub stored : DataState → Bool
stored sync = true
stored changed = true
stored deleted = true
stored new = false
stored nothing = false

abbrev pub last_event : Event → List Event → Event
last_event e [] = e
last_event e (e' ∷ es) = last_event e' es

abbrev pub last_write : Event → ℕ → Write
last_write edit r = update r
last_write remove r = delete r

step-stored : (e : Event) (s : DataState) → stored s ≡ true → stored (step e s) ≡ true
unfolding step on_changed on_deleted
step-stored edit s h = ground arith
step-stored remove s h = ground arith

-- Of a clean model that has a row only the last event counts: after an edit the row is updated,
-- after a removal it is deleted, whatever came before.
pub save_query-after :
    (r : ℕ) (m : Model) (e : Event) (es : List Event)
    → m.dirty ≡ false
    → stored m.state ≡ true
    → save_query r (record m { state = after (e ∷ es) m.state })
      ≡ some (some (last_write (last_event e es) r))
unfolding after step on_changed on_deleted save_query
save_query-after r m edit [] clean h = ground arith
save_query-after r m remove [] clean h = ground arith
save_query-after r m e (e' ∷ es) clean h =
    save_query-after r (record m { state = step e m.state }) e' es clean (step-stored e m.state h)

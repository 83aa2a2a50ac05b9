-- ===== src/Models/Tests.antt =====
-- A stored model that is removed, edited and removed again.
use dockb.Prelude.{false}
use dockb.Models.{Model, sync, paragraph}

abbrev par : Model
par = record { kind = paragraph; id = "p1"; dirty = false; state = sync }

-- ===== src/Sessions/Tests.antt =====
-- Sign-ins in flight and notifications at concrete inputs.
use dockb.Prelude.{◌≡◌, refl, List, none, some, [], ◌∷◌}
use dockb.Dict.{unique_keys, member}
use dockb.Sessions.{SessionContext, Notification, PendingLoginStore, issue, consume}
use dockb.Sessions.Laws.{Event, issued, consumed, after_events, consume-issue}

abbrev held : PendingLoginStore
held = record {
  entries = ("s0", record { provider = "github"; code_verifier = "v0"; created_at = 0 }) ∷ [];
  ttl = 600;
}

abbrev others : List Event
others = issued 300 "s2" "v2" "google" ∷ consumed 400 "s0" ∷ consumed 650 "s2" ∷ []

consume-issue_example :
    let store = after_events others (issue 100 "s1" "v1" "github" held) in
    ((consume 700 "s1" store).1
      ≡ some (record { provider = "github"; code_verifier = "v1"; created_at = 100 }))
    × ((consume 701 "s1" (consume 700 "s1" store).0).1 ≡ none)
unfolding unique_keys member
consume-issue_example =
    consume-issue 100 700 701 "s1" "v1" "github" held others refl (refl, (refl, (refl, tt)))

abbrev split : Notification
split = record { type = "sentence_split"; payload = "{}" }

abbrev quiet : SessionContext
quiet = record { created_at = 0; notifications = [] }

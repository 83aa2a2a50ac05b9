-- ===== src/Sessions/Laws.antt =====
-- Sign-ins in flight: a state is good once, for its lifetime.
use dockb.Prelude.{
  ℕ, ◌+◌, String, ◌≡◌, refl, ◌∙◌, inl, inr, Bool, true, false, not, ◌&&◌, ◌⊎◌, Option, none, some,
  List, [], ◌∷◌, ◌++◌, arith, ◌==◌, ltb, if◌then◌else◌, Bool-cases, keep_if, All, All-imp,
}
use mathlib.Core.List.{append-nil, append_assoc}
use dockb.Dict.{
  Dict, get, set, pop, member, unique_keys, get-set, get-pop, get-set_self, get-pop_self,
  member-pop, unique_keys-set, get_behind,
}
use dockb.Sessions.{
  PendingLogin, PendingLoginStore, is_expired, expire_stale, issue, consume, SessionContext,
  Notification, add_notification, pending_notifications,
}

-- Without stale entries, what a key has is what it had, unless that is stale.
unfoldable kept : (Option PendingLogin) → (PendingLogin → Bool) → Option PendingLogin
kept none p = none
kept (some e) p = if p e then some e else none

get-keep_if :
    (k : String) (p : PendingLogin → Bool) (d : Dict PendingLogin)
    → unique_keys d ≡ true
    → get k (keep_if (λ (e : String × PendingLogin). p e.1) d) ≡ kept (get k d) p
unfolding get keep_if unique_keys kept
get-keep_if k p [] h = refl
get-keep_if k p ((j, e) ∷ d) h = elim (Bool-cases (j == k)) [
  | inr other ↦ ground (arith, other, h, get-keep_if k p d)
  | inl here ↦ ground (arith, here, h, get-keep_if k p d, get_behind k j e d h here)
]

member-keep_if :
    (k : String) (p : PendingLogin → Bool) (d : Dict PendingLogin)
    → member k d ≡ false
    → member k (keep_if (λ (e : String × PendingLogin). p e.1) d) ≡ false
unfolding member keep_if
member-keep_if k p [] h = refl
member-keep_if k p ((j, e) ∷ d) h = ground (arith, h, member-keep_if k p d)

unique_keys-keep_if :
    (p : PendingLogin → Bool) (d : Dict PendingLogin)
    → unique_keys d ≡ true
    → unique_keys (keep_if (λ (e : String × PendingLogin). p e.1) d) ≡ true
unfolding unique_keys keep_if
unique_keys-keep_if p [] h = refl
unique_keys-keep_if p ((j, e) ∷ d) h =
    ground (arith, h, member-keep_if j p d, unique_keys-keep_if p d)

unique_keys-pop :
    (k : String) (d : Dict PendingLogin) → unique_keys d ≡ true → unique_keys (pop k d) ≡ true
unfolding unique_keys pop
unique_keys-pop k [] h = refl
unique_keys-pop k ((j, e) ∷ d) h = ground (arith, h, member-pop k j d, unique_keys-pop k d)

-- What other sign-ins do to the store.
pub data Event : Type 0 where
  issued : ℕ → String → String → String → Event
  consumed : ℕ → String → Event

unfoldable pub after_event : Event → PendingLoginStore → PendingLoginStore
unfolding issue consume
after_event (issued at state verifier provider) s = issue at state verifier provider s
after_event (consumed at state) s = (consume at state s).0

unfoldable pub after_events : List Event → PendingLoginStore → PendingLoginStore
unfolding after_event
after_events [] s = s
after_events (e ∷ es) s = after_events es (after_event e s)

-- The event is of another state, and not after the time.
abbrev pub is_of_other : String → ℕ → Event → Bool
is_of_other state later (issued at j verifier provider) = not (j == state) && not (ltb later at)
is_of_other state later (consumed at j) = not (j == state) && not (ltb later at)

-- The store still has the sign-in, or has dropped it since it had expired.
record Held (state : String) (login : PendingLogin) (later ttl : ℕ) (s : PendingLoginStore)
    : Type 0 where
  unique : unique_keys s.entries ≡ true
  same_ttl : s.ttl ≡ ttl
  there :
      (get state s.entries ≡ some login)
      ⊎ (get state s.entries ≡ none) × (is_expired ttl later login ≡ true)

event-Held :
    (state : String) (login : PendingLogin) (later ttl : ℕ) (e : Event) (s : PendingLoginStore)
    → is_of_other state later e ≡ true
    → Held state login later ttl s
    → Held state login later ttl (after_event e s)
unfolding after_event issue consume expire_stale kept
event-Held state login later ttl (issued at j verifier provider) s o h =
    let p : PendingLogin → Bool = (λ e. not (is_expired s.ttl at e)) in
    let d = keep_if (λ (e : String × PendingLogin). p e.1) s.entries in
    let new : PendingLogin = record {
      provider = provider;
      code_verifier = verifier;
      created_at = at;
    } in
    let got : get state (set j new d) ≡ kept (get state s.entries) p =
      ground (arith, get-set j state new d, o, get-keep_if state p s.entries h.unique) in
    record {
      unique = unique_keys-set j new d (unique_keys-keep_if p s.entries h.unique);
      same_ttl = h.same_ttl;
      there = elim h.there [
        | inl has ↦ elim (Bool-cases (is_expired s.ttl at login)) [
          | inr fresh ↦ inl (ground (arith, got, has, fresh))
          | inl stale ↦ inr (ground (arith, got, has, stale), ground (arith, stale, h.same_ttl, o))
        ]
        | inr (gone, stale) ↦ inr (ground (arith, got, gone), stale)
      ];
    }
event-Held state login later ttl (consumed at j) s o h = record {
  unique = unique_keys-pop j s.entries h.unique;
  same_ttl = h.same_ttl;
  there = elim h.there [
    | inl has ↦ inl (ground (arith, get-pop j state s.entries, o, has))
    | inr (gone, stale) ↦ inr (ground (arith, get-pop j state s.entries, o, gone), stale)
  ];
}

events-Held :
    (state : String) (login : PendingLogin) (later ttl : ℕ) (es : List Event)
    (s : PendingLoginStore)
    → All (λ e. is_of_other state later e ≡ true) es
    → Held state login later ttl s
    → Held state login later ttl (after_events es s)
unfolding after_events
events-Held state login later ttl [] s o h = h
events-Held state login later ttl (e ∷ es) s o h =
    events-Held state login later ttl es (after_event e s) o.1
      (event-Held state login later ttl e s o.0 h)

-- Where each state stands once, a state that was issued is answered, whatever other states are
-- issued and consumed in between, exactly within its lifetime, and by one callback only.
pub consume-issue :
    (now later again : ℕ) (state verifier provider : String) (s : PendingLoginStore)
    (es : List Event)
    → unique_keys s.entries ≡ true
    → All (λ e. is_of_other state later e ≡ true) es
    → let store = after_events es (issue now state verifier provider s) in
      ((consume later state store).1 ≡ (
        if ltb (now + s.ttl) later
        then none
        else some (record { provider = provider; code_verifier = verifier; created_at = now })))
      × ((consume again state (consume later state store).0).1 ≡ none)
unfolding consume issue expire_stale
consume-issue now later again state verifier provider s es u o =
    let p : PendingLogin → Bool = (λ e. not (is_expired s.ttl now e)) in
    let d = keep_if (λ (e : String × PendingLogin). p e.1) s.entries in
    let login : PendingLogin = record {
      provider = provider;
      code_verifier = verifier;
      created_at = now;
    } in
    let s1 = issue now state verifier provider s in
    let held = events-Held state login later s.ttl es s1 o (record {
      unique = unique_keys-set state login d (unique_keys-keep_if p s.entries u);
      same_ttl = refl;
      there = inl (get-set_self state login d);
    }) in
    let store = after_events es s1 in
    (
      elim held.there [
        | inl has ↦ ground (arith, has, held.same_ttl)
        | inr (gone, stale) ↦ ground (arith, gone, stale)
      ],
      ground (arith, get-pop_self state store.entries),
    )

All-set :
    (P : String × PendingLogin → Type 0) (k : String) (e : PendingLogin) (d : Dict PendingLogin)
    → ((j : String) → P (j, e))
    → All P d
    → All P (set k e d)
unfolding set
All-set P k e [] h a = (h k, tt)
All-set P k e ((j, x) ∷ d) h a = elim (Bool-cases (j == k)) [
  | inl hit ↦ rw hit (h j, a.1)
  | inr miss ↦ rw miss (a.0, All-set P k e d h a.1)
]

All-kept :
    (p : String × PendingLogin → Bool) (d : Dict PendingLogin) → All (λ e. p e ≡ true) (keep_if p d)
unfolding keep_if
All-kept p [] = tt
All-kept p (e ∷ d) = elim (Bool-cases (p e)) [
  | inl hit ↦ rw hit (hit, All-kept p d)
  | inr miss ↦ rw miss (All-kept p d)
]

-- Abandoned sign-ins do not accumulate: after one is issued, none that is held has expired.
pub issue-live :
    (now : ℕ) (state verifier provider : String) (s : PendingLoginStore)
    → All (λ e. is_expired s.ttl now e.1 ≡ false) (issue now state verifier provider s).entries
unfolding issue expire_stale
issue-live now state verifier provider s =
    All-set (λ e. is_expired s.ttl now e.1 ≡ false) state
      (record { provider = provider; code_verifier = verifier; created_at = now })
      (keep_if (λ e. not (is_expired s.ttl now e.1)) s.entries) (λ j. ground arith)
      (All-imp _ _ (keep_if (λ e. not (is_expired s.ttl now e.1)) s.entries) (λ e h. ground arith)
        (All-kept (λ e. not (is_expired s.ttl now e.1)) s.entries))

-- Notifications that are added one after the other.
unfoldable pub add_all : List Notification → SessionContext → SessionContext
add_all [] ctx = ctx
add_all (n ∷ ns) ctx = add_all ns (add_notification n ctx)

-- Draining the queue gives what was waiting and then what was added, in order, and a second drain
-- gives nothing.
pub drain-add_all :
    (ns : List Notification) (ctx : SessionContext)
    → ((pending_notifications (add_all ns ctx)).0 ≡ ctx.notifications ++ ns)
      × ((pending_notifications (pending_notifications (add_all ns ctx)).1).0 ≡ [])
unfolding add_all add_notification pending_notifications
drain-add_all [] ctx = (simp append-nil, refl)
drain-add_all (n ∷ ns) ctx =
    let ih = drain-add_all ns (record ctx { notifications = ctx.notifications ++ n ∷ [] }) in
    (ih.0 ∙ append_assoc ctx.notifications (n ∷ []) ns, refl)

-- ===== src/SaveLocks/Steps.antt =====
-- Every step keeps the counts and the locks of the registry right.
use dockb.Prelude.{
  none, ◌<◌, ◌∙◌, ℕ, zero, suc, ◌+◌, ◌-◌, String, ◌≡◌, refl, sym, ap, inl, inr, Bool, true, false,
  some, List, [], ◌∷◌, arith, ◌==◌, eq_iff, eq_refl, leb, eqb, if◌then◌else◌, Bool-cases,
  Option-cases, get_elem?, All,
}
use dockb.Dict
use dockb.Dict.{Dict, get-set, get-set_self, get-pop}
use dockb.SaveLocks.{
  Phase, idle, waiting, holding, leaving, Registry, users, set_at, counted, save_lock, save_release,
  hold, step_from, Turn, step, run, idle_threads, started,
}
use dockb.SaveLocks.Counts.{
  count, saves, holds, Listed, Sound, count-set_at, All-set_at, All-get, Listed-set, Listed-pop,
}

users-counted :
    (c d : String) (r : Registry)
    → users d (counted c r) ≡ (if c == d then users c r + 1 else users d r)
users-counted c d r = ground (arith, get-set c d (users c r + 1) r.save_users)

-- The counts after a thread enters, moves on inside, or leaves.
entered :
    (c d : String) (i : ℕ) (l : ℕ) (ps : List Phase) (n : ℕ)
    → get_elem? ps i ≡ some idle
    → n ≡ count (saves d) ps
    → count (saves d) (set_at i (waiting c l) ps) ≡ (if c == d then n + 1 else n)
entered c d i l ps n h e = ground (arith, count-set_at (saves d) i (waiting c l) idle ps h, e)

entered_users :
    (c d : String) (i l : ℕ) (r : Registry)
    → get_elem? r.threads i ≡ some idle
    → Sound r
    → users d (counted c r) ≡ count (saves d) (set_at i (waiting c l) r.threads)
entered_users c d i l r h s =
    let e = s.counts d in
    elim (Bool-cases (c == d)) [
      | inl same ↦
          let users_same : users c r ≡ users d r = ap (λ x. users x r) ((eq_iff c d).0 same) in
          ground (arith, users-counted c d r, same, users_same, entered c d i l r.threads _ h e)
      | inr other ↦ ground (arith, users-counted c d r, other, entered c d i l r.threads _ h e)
    ]

module _ (locks : Dict ℕ) (c : String) where
  -- The new lock is not any other's.
  made_set :
      (l : ℕ)
      → ((d : String) (k : ℕ) → Dict.get d locks ≡ some k → k < l)
      → (d : String) (k : ℕ) → Dict.get d (Dict.set c l locks) ≡ some k
      → k < suc l
  made_set l made d k h = elim (Bool-cases (c == d)) [
    | inl same ↦
        let e : some l ≡ some k = sym (get-set c d l locks ∙ rw same refl) ∙ h in
        let l_same : l ≡ k = ap (λ o. elim o [ none ↦ l | some x ↦ x ]) e in omega (arith, l_same)
    | inr other ↦
        let old = made d k (sym (get-set c d l locks ∙ rw other refl) ∙ h) in omega (arith, old)
  ]

  apart_set :
      (l : ℕ)
      → ((d e : String) (k : ℕ) → Dict.get d locks ≡ some k → Dict.get e locks ≡ some k → d ≡ e)
      → ((d : String) (k : ℕ) → Dict.get d locks ≡ some k → k < l)
      → (d e : String) (k : ℕ) → Dict.get d (Dict.set c l locks) ≡ some k
      → Dict.get e (Dict.set c l locks) ≡ some k
      → d ≡ e
  apart_set l apart made d e k h g = elim (Bool-cases (c == d)) [
    | inl first ↦ elim (Bool-cases (c == e)) [
      | inl second ↦ sym ((eq_iff c d).0 first) ∙ (eq_iff c e).0 second
      | inr other ↦
          let same : some l ≡ some k = sym (get-set c d l locks ∙ rw first refl) ∙ h in
          let l_same : l ≡ k = ap (λ o. elim o [ none ↦ l | some x ↦ x ]) same in
          let old = made e k (sym (get-set c e l locks ∙ rw other refl) ∙ g) in
          absurd (omega (arith, old, l_same))
    ]
    | inr other ↦ elim (Bool-cases (c == e)) [
      | inl second ↦
          let same : some l ≡ some k = sym (get-set c e l locks ∙ rw second refl) ∙ g in
          let l_same : l ≡ k = ap (λ o. elim o [ none ↦ l | some x ↦ x ]) same in
          let old = made d k (sym (get-set c d l locks ∙ rw other refl) ∙ h) in
          absurd (omega (arith, old, l_same))
      | inr other' ↦
          apart d e k (sym (get-set c d l locks ∙ rw other refl) ∙ h)
            (sym (get-set c e l locks ∙ rw other' refl) ∙ g)
    ]
  ]

  still_there :
      (d : String) (k : ℕ) → Dict.get d (Dict.pop c locks) ≡ some k → Dict.get d locks ≡ some k
  still_there d k h = elim (Bool-cases (c == d)) [
    | inl same ↦ absurd (ground (arith, get-pop c d locks, same, h))
    | inr other ↦ sym (get-pop c d locks ∙ rw other refl) ∙ h
  ]

save_lock-Sound :
    (i : ℕ) (c : String) (r : Registry)
    → get_elem? r.threads i ≡ some idle
    → Sound r
    → Sound (save_lock i c r)
unfolding save_lock
save_lock-Sound i c r h s = elim (Option-cases (Dict.get c r.save_locks)) [
  | inl new ↦
      let l = r.next_lock in
      rw (save_lock, new)
        (record {
          counts = λ d. entered_users c d i l r h s;
          listed =
              All-set_at (Dict.set c l r.save_locks) i (waiting c l) r.threads
                (get-set_self c l r.save_locks)
                (Listed-set r.save_locks c l r.threads new s.listed);
          owned = λ k.
              ground (arith, count-set_at (holds k) i (waiting c l) idle r.threads h, s.owned k);
          evicted = λ d e. ground (
            arith,
            entered c d i l r.threads _ h refl,
            e,
            s.evicted d,
            get-set c d l r.save_locks,
          );
          apart = λ d e k. apart_set r.save_locks c l s.apart s.made d e k;
          made = λ d k. made_set r.save_locks c l s.made d k;
        })
  | inr (lock, there) ↦
      rw (save_lock, there)
        (record {
          counts = λ d. entered_users c d i lock r h s;
          listed = All-set_at r.save_locks i (waiting c lock) r.threads there s.listed;
          owned = λ k.
              ground (arith, count-set_at (holds k) i (waiting c lock) idle r.threads h, s.owned k);
          evicted = λ d e. ground (arith, entered c d i lock r.threads _ h refl, e, s.evicted d);
          apart = s.apart;
          made = s.made;
        })
]

acquire-Sound :
    (i : ℕ) (c : String) (lock : ℕ) (r : Registry)
    → get_elem? r.threads i ≡ some (waiting c lock)
    → r.held lock ≡ false
    → Sound r
    → Sound
        (record r { held = hold lock true r.held; threads = set_at i (holding c lock) r.threads })
acquire-Sound i c lock r h free s = record {
  counts = λ d.
      ground
        (arith, s.counts d, count-set_at (saves d) i (holding c lock) (waiting c lock) r.threads h);
  listed =
      All-set_at r.save_locks i (holding c lock) r.threads
        (All-get r.save_locks i (waiting c lock) r.threads s.listed h) s.listed;
  owned = λ k. elim (Bool-cases (eqb lock k)) [
    | inl same ↦
        let e : lock ≡ k = ground (arith, same) in
        let free' : r.held k ≡ false = rw e at free in
        ground (
          arith,
          s.owned k,
          free',
          same,
          count-set_at (holds k) i (holding c lock) (waiting c lock) r.threads h,
        )
    | inr other ↦ ground (
      arith,
      s.owned k,
      other,
      count-set_at (holds k) i (holding c lock) (waiting c lock) r.threads h,
    )
  ];
  evicted = λ d e.
      s.evicted d
        (ground (arith, e, count-set_at (saves d) i (holding c lock) (waiting c lock) r.threads h));
  apart = s.apart;
  made = s.made;
}

release-Sound :
    (i : ℕ) (c : String) (lock : ℕ) (r : Registry)
    → get_elem? r.threads i ≡ some (holding c lock)
    → Sound r
    → Sound
        (record r { held = hold lock false r.held; threads = set_at i (leaving c lock) r.threads })
release-Sound i c lock r h s = record {
  counts = λ d.
      ground
        (arith, s.counts d, count-set_at (saves d) i (leaving c lock) (holding c lock) r.threads h);
  listed =
      All-set_at r.save_locks i (leaving c lock) r.threads
        (All-get r.save_locks i (holding c lock) r.threads s.listed h) s.listed;
  owned = λ k. elim (Bool-cases (eqb lock k)) [
    | inl same ↦ elim (Bool-cases (r.held k)) [
      | inl taken ↦ ground (
        arith,
        s.owned k,
        taken,
        same,
        count-set_at (holds k) i (leaving c lock) (holding c lock) r.threads h,
      )
      | inr free ↦ ground (
        arith,
        s.owned k,
        free,
        same,
        count-set_at (holds k) i (leaving c lock) (holding c lock) r.threads h,
      )
    ]
    | inr other ↦ ground (
      arith,
      s.owned k,
      other,
      count-set_at (holds k) i (leaving c lock) (holding c lock) r.threads h,
    )
  ];
  evicted = λ d e.
      s.evicted d
        (ground (arith, e, count-set_at (saves d) i (leaving c lock) (holding c lock) r.threads h));
  apart = s.apart;
  made = s.made;
}

-- Who leaves is counted before.
left_over :
    (i : ℕ) (c d : String) (lock : ℕ) (r : Registry)
    → get_elem? r.threads i ≡ some (leaving c lock)
    → Sound r
    → count (saves d) (set_at i idle r.threads) ≡ (if c == d then users c r - 1 else users d r)
left_over i c d lock r h s =
    let before = count-set_at (saves d) i idle (leaving c lock) r.threads h in
    elim (Bool-cases (c == d)) [
      | inl same ↦
          let e : users c r ≡ users d r = ap (λ x. users x r) ((eq_iff c d).0 same) in
          ground (arith, same, before, e, s.counts d)
      | inr other ↦ ground (arith, other, before, s.counts d)
    ]

save_release-Sound :
    (i : ℕ) (c : String) (lock : ℕ) (r : Registry)
    → get_elem? r.threads i ≡ some (leaving c lock)
    → Sound r
    → Sound (save_release i c r)
unfolding save_release
save_release-Sound i c lock r h s = elim (Bool-cases (leb (users c r - 1) 0)) [
  | inl last ↦
      let none_left : count (saves c) (set_at i idle r.threads) ≡ 0 =
        ground (arith, left_over i c c lock r h s, eq_refl c, last) in
      rw (save_release, last)
        (record {
          counts = λ d. ground (arith, left_over i c d lock r h s, get-pop c d r.save_users, last);
          listed =
              Listed-pop r.save_locks c (set_at i idle r.threads) none_left
                (All-set_at r.save_locks i idle r.threads tt s.listed);
          owned = λ k.
              ground (arith, s.owned k, count-set_at (holds k) i idle (leaving c lock) r.threads h);
          evicted = λ d e. ground (
            arith,
            get-pop c d r.save_locks,
            left_over i c d lock r h s,
            e,
            s.counts d,
            s.evicted d,
          );
          apart = λ d e k h' g.
              s.apart d e k (still_there r.save_locks c d k h') (still_there r.save_locks c e k g);
          made = λ d k h'. s.made d k (still_there r.save_locks c d k h');
        })
  | inr more ↦
      rw (save_release, more)
        (record {
          counts = λ d.
              ground (arith, left_over i c d lock r h s, get-set c d (users c r - 1) r.save_users);
          listed = All-set_at r.save_locks i idle r.threads tt s.listed;
          owned = λ k.
              ground (arith, s.owned k, count-set_at (holds k) i idle (leaving c lock) r.threads h);
          evicted = λ d e. elim (Bool-cases (c == d)) [
            | inl same ↦ absurd (ground (arith, left_over i c d lock r h s, e, same, more))
            | inr other ↦
                s.evicted d (ground (arith, left_over i c d lock r h s, e, other, s.counts d))
          ];
          apart = s.apart;
          made = s.made;
        })
]

step-Sound : (t : Turn) (r : Registry) → Sound r → Sound (step t r)
unfolding step
step-Sound t r s = elim (Option-cases (get_elem? r.threads t.thread)) [
  | inl absent ↦ rw (step, absent) s
  | inr (p, there) ↦ rw (step, there) (from p there)
]
  where
    from :
        (p : Phase)
        → get_elem? r.threads t.thread ≡ some p
        → Sound (step_from t.thread t.chapter_id p r)
    from idle there = save_lock-Sound t.thread t.chapter_id r there s
    from (waiting c lock) there = elim (Bool-cases (r.held lock)) [
      | inl taken ↦ rw taken s
      | inr free ↦ rw free (acquire-Sound t.thread c lock r there free s)
    ]
    from (holding c lock) there = release-Sound t.thread c lock r there s
    from (leaving c lock) there = save_release-Sound t.thread c lock r there s

pub run-Sound : (ts : List Turn) (r : Registry) → Sound r → Sound (run ts r)
run-Sound [] r s = s
run-Sound (t ∷ ts) r s = run-Sound ts (step t r) (step-Sound t r s)

count-idle : (f : Phase → Bool) (n : ℕ) → f idle ≡ false → count f (idle_threads n) ≡ 0
unfolding count
count-idle f zero h = refl
count-idle f (suc n) h = rw h (count-idle f n h)

Listed-idle : (n : ℕ) → All (Listed []) (idle_threads n)
Listed-idle zero = tt
Listed-idle (suc n) = (tt, Listed-idle n)

pub started-Sound : (n : ℕ) → Sound (started n)
unfolding Dict.get
started-Sound n = record {
  counts = λ c. sym (count-idle (saves c) n refl);
  listed = Listed-idle n;
  owned = λ l. count-idle (holds l) n refl;
  evicted = λ c e. refl;
  apart = λ c d l h g. cc;
  made = λ c l h. cc;
}

-- ===== src/TimeQueue/Reset.antt =====
-- `reset`: what becomes of the timers that were due.
use thread_and_net.Prelude.{
  ℕ, ◌≡◌, ◌≢◌, ◌⊎◌, inl, inr, ◌<◌, refl, sym, ◌∙◌, ap, Option, some, none, List, [], ◌∷◌, true,
  false, arith, Bool-cases, update, update_self, update_ne,
}
use thread_and_net.Timestamp.{now_after}
use thread_and_net.TimeQueue.{
  TimeQueue, TimerInfo, Entry, entry_ltb, insert, uintptr_max, schedule, reset_one, reset,
}
use thread_and_net.TimeQueue.Inv.{All, Without, Apart, Owned, Wf}
use thread_and_net.TimeQueue.Insert.{All-insert, schedule-Wf}

-- The entry is in the set.
abbrev pub Has : Entry → List Entry → Type 0
Has e [] = ⊥
Has e (x ∷ xs) = (x ≡ e) ⊎ Has e xs

-- The entry's timer is allocated.
abbrev pub Live : (ℕ → Option TimerInfo) → Entry → Type 0
Live heap e = (i : TimerInfo) × (heap e.ptr ≡ some i) × (e.ptr < uintptr_max)

pub Live-frame :
    (h h' : ℕ → Option TimerInfo) (xs : List Entry)
    → All (λ x. h' x.ptr ≡ h x.ptr) xs
    → All (Live h) xs
    → All (Live h') xs
Live-frame h h' [] s l = tt
Live-frame h h' (x ∷ xs) s l =
    let (i, at, small) = l.0 in ((i, s.0 ∙ at, small), Live-frame h h' xs s.1 l.1)

pub Has-insert_old : (e d : Entry) (xs : List Entry) → Has d xs → Has d (insert e xs)
unfolding insert
Has-insert_old e d [] h = absurd h
Has-insert_old e d (x ∷ xs) h = elim (Bool-cases (entry_ltb e x)) [
  | inl below ↦ rw below (inr h)
  | inr above ↦ elim (Bool-cases (entry_ltb x e)) [
    | inl after ↦
        rw (above, after) (elim h [ inl a ↦ inl a | inr b ↦ inr (Has-insert_old e d xs b) ])
    | inr same ↦ rw (above, same) h
  ]
]

pub Has-insert : (e : Entry) (xs : List Entry) → Without e.ptr xs → Has e (insert e xs)
unfolding insert
Has-insert e [] n = inl refl
Has-insert e (x ∷ xs) n = elim (Bool-cases (entry_ltb e x)) [
  | inl below ↦ rw below (inl refl)
  | inr above ↦ elim (Bool-cases (entry_ltb x e)) [
    | inl after ↦ rw (above, after) (inr (Has-insert e xs n.1))
    | inr same ↦ absurd (ground (arith, n.0))
  ]
]

-- A timer that repeats is set again, an interval from `now`; any other is freed.
abbrev pub Settles : ℕ → (ℕ → Option TimerInfo) → TimeQueue → Entry → Type 0
Settles now old q e =
    (i : TimerInfo)
    → old e.ptr ≡ some i
    → (i.repeat ≡ true
        → (q.heap e.ptr ≡ some (record i { expiration = now_after now i.interval }))
          × Has (record { when = now_after now i.interval; ptr = e.ptr }) q.timers)
      × (i.repeat ≡ false → q.heap e.ptr ≡ none)

record Stepped (q q' : TimeQueue) (e : Entry) (now : ℕ) : Type 0 where
  wf : Wf q'
  frame : (p : ℕ) → p ≢ e.ptr → q'.heap p ≡ q.heap p
  settled : Settles now q.heap q' e
  keeps : (d : Entry) → Has d q.timers → Has d q'.timers
  without : (p : ℕ) → p ≢ e.ptr → Without p q.timers → Without p q'.timers
  log : q'.ran ≡ q.ran

-- A store at the address of no entry leaves the entries their timers.
Owned-update :
    (heap : ℕ → Option TimerInfo) (p : ℕ) (v : Option TimerInfo) (xs : List Entry)
    → Without p xs
    → All (Owned heap) xs
    → All (Owned (update heap p v)) xs
Owned-update heap p v [] n o = tt
Owned-update heap p v (x ∷ xs) n o =
    let (i, a, b, c) = o.0 in
    ((i, update_ne heap p x.ptr v n.0 ∙ a, b, c), Owned-update heap p v xs n.1 o.1)

pub store-Wf :
    (q : TimeQueue) (p : ℕ) (v : Option TimerInfo)
    → Wf q
    → Without p q.timers
    → Wf (record q { heap = update q.heap p v })
store-Wf q p v w n = record {
  sorted = w.sorted;
  apart = w.apart;
  owned = Owned-update q.heap p v q.timers n w.owned;
  armed_for = w.armed_for;
}

module _ (q : TimeQueue) (e : Entry) (now : ℕ) (i : TimerInfo) (w : Wf q)
    (live : q.heap e.ptr ≡ some i) (small : e.ptr < uintptr_max) (n : Without e.ptr q.timers) where
  again : TimerInfo
  again = record i { expiration = now_after now i.interval }

  entry : Entry
  entry = record { when = now_after now i.interval; ptr = e.ptr }

  stored : TimeQueue
  stored = record q { heap = update q.heap e.ptr (some again) }

  repeat-Stepped :
      i.repeat ≡ true
      → (reset_one q e now ≡ some (schedule stored entry)) × Stepped q (schedule stored entry) e now
  unfolding reset_one again entry stored
  repeat-Stepped r = (
    rw (live, r) refl,
    record {
      wf =
          schedule-Wf stored entry (store-Wf q e.ptr (some again) w n)
            (again, update_self q.heap e.ptr (some again), refl, small) n;
      frame = λ p ne. update_ne q.heap e.ptr p (some again) ne;
      settled = λ j h.
          let same : i ≡ j = ground (arith, live, h) in
          (
            λ rj. (
              update_self q.heap e.ptr (some again)
                  ∙ ap
                      (λ (k : TimerInfo). some (record k { expiration = now_after now k.interval }))
                      same,
              rw (← same) (Has-insert entry q.timers n),
            ),
            λ nj. absurd (ground (arith, ap (λ (k : TimerInfo). k.repeat) same)),
          );
      keeps = λ d h. Has-insert_old entry d q.timers h;
      without = λ p ne h. All-insert (λ x. x.ptr ≢ p) entry q.timers (λ x. ne (sym x)) h;
      log = refl;
    },
  )

  once-Stepped :
      i.repeat ≡ false
      → let q' : TimeQueue = record q { heap = update q.heap e.ptr none } in
        (reset_one q e now ≡ some q') × Stepped q q' e now
  unfolding reset_one
  once-Stepped r = (
    rw (live, r) refl,
    record {
      wf = store-Wf q e.ptr none w n;
      frame = λ p ne. update_ne q.heap e.ptr p none ne;
      settled = λ j h.
          let same : i ≡ j = ground (arith, live, h) in
          (
            λ rj. absurd (ground (arith, ap (λ (k : TimerInfo). k.repeat) same)),
            λ nj. update_self q.heap e.ptr none,
          );
      keeps = λ d h. h;
      without = λ p ne h. h;
      log = refl;
    },
  )

reset_one-Stepped :
    (q : TimeQueue) (e : Entry) (now : ℕ)
    → Wf q
    → Live q.heap e
    → Without e.ptr q.timers
    → (q' : TimeQueue) × (reset_one q e now ≡ some q') × Stepped q q' e now
reset_one-Stepped q e now w (i, live, small) n = elim (Bool-cases i.repeat) [
  | inl r ↦
      let (h, s) = repeat-Stepped q e now i w live small n r in
      (schedule (stored q e now i w live small n) (entry q e now i w live small n), h, s)
  | inr o ↦
      let (h, s) = once-Stepped q e now i w live small n o in
      (record q { heap = update q.heap e.ptr none }, h, s)
]

-- What `reset` needs of the timers that were due: they are allocated, no two are the same, and none
-- of them is in the set.
pub record Pending (q : TimeQueue) (es : List Entry) : Type 0 where
  pub wf : Wf q
  pub live : All (Live q.heap) es
  pub apart : Apart es
  pub out : All (λ e. Without e.ptr q.timers) es

-- What it does with them.
pub record Settled (now : ℕ) (q q' : TimeQueue) (es : List Entry) : Type 0 where
  pub wf : Wf q'
  pub frame : (p : ℕ) → Without p es → q'.heap p ≡ q.heap p
  pub settled : All (Settles now q.heap q') es
  pub keeps : (d : Entry) → Has d q.timers → Has d q'.timers
  pub log : q'.ran ≡ q.ran

Pending-step :
    (q q' : TimeQueue) (e : Entry) (now : ℕ) (es : List Entry)
    → Pending q (e ∷ es)
    → Stepped q q' e now
    → Pending q' es
Pending-step q q' e now es p s = record {
  wf = s.wf;
  live = lives es p.apart.0 p.live.1;
  apart = p.apart.1;
  out = outs es p.apart.0 p.out.1;
}
  where
    lives : (xs : List Entry) → Without e.ptr xs → All (Live q.heap) xs → All (Live q'.heap) xs
    lives [] n l = tt
    lives (x ∷ xs) n l =
        let (i, h, small) = l.0 in ((i, s.frame x.ptr n.0 ∙ h, small), lives xs n.1 l.1)

    outs :
        (xs : List Entry)
        → Without e.ptr xs
        → All (λ x. Without x.ptr q.timers) xs
        → All (λ x. Without x.ptr q'.timers) xs
    outs [] n o = tt
    outs (x ∷ xs) n o = (s.without x.ptr n.0 o.0, outs xs n.1 o.1)

-- Later rounds leave what the first one did.
Settles-later :
    (now : ℕ) (old : ℕ → Option TimerInfo) (q q' : TimeQueue) (e : Entry)
    → Settles now old q e
    → q'.heap e.ptr ≡ q.heap e.ptr
    → ((d : Entry) → Has d q.timers → Has d q'.timers)
    → Settles now old q' e
Settles-later now old q q' e s same keeps i h =
    let (r, o) = s i h in (λ x. (same ∙ (r x).0, keeps _ (r x).1), λ x. same ∙ o x)

Settles-earlier :
    (now : ℕ) (q q' q'' : TimeQueue) (e : Entry) (es : List Entry)
    → Stepped q q' e now
    → Without e.ptr es
    → All (Settles now q'.heap q'') es
    → All (Settles now q.heap q'') es
Settles-earlier now q q' q'' e [] s n a = tt
Settles-earlier now q q' q'' e (x ∷ xs) s n a =
    (λ i h. a.0 i (s.frame x.ptr n.0 ∙ h), Settles-earlier now q q' q'' e xs s n.1 a.1)

-- `reset` runs through, keeps the invariant, sets the timers that repeat again, an interval from
-- `now`, frees the others, and touches no other timer.
pub reset-Settled :
    (q : TimeQueue) (es : List Entry) (now : ℕ)
    → Pending q es
    → (q' : TimeQueue) × (reset q es now ≡ some q') × Settled now q q' es
unfolding reset
reset-Settled q [] now p =
    (q, refl, record { wf = p.wf; frame = λ x h. refl; settled = tt; keeps = λ d h. h; log = refl })
reset-Settled q (e ∷ es) now p =
    let (q', h, s) = reset_one-Stepped q e now p.wf p.live.0 p.out.0 in
    let (q'', h', t) = reset-Settled q' es now (Pending-step q q' e now es p s) in
    (
      q'',
      rw h h',
      record {
        wf = t.wf;
        frame = λ x n. t.frame x n.1 ∙ s.frame x (λ y. n.0 (sym y));
        settled = (
          Settles-later now q.heap q' q'' e s.settled (t.frame e.ptr p.apart.0) t.keeps,
          Settles-earlier now q q' q'' e es s p.apart.0 t.settled,
        );
        keeps = λ d x. t.keeps d (s.keeps d x);
        log = t.log ∙ s.log;
      },
    )

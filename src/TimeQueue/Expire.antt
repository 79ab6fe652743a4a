-- ===== src/TimeQueue/Expire.antt =====
-- `getAllExpiredTimers`: it takes out the timers that are due, and no other.
use thread_and_net.Prelude.{
  ℕ, ◌≡◌, ◌≢◌, inl, inr, ◌<◌, refl, sym, Option, some, List, [], ◌∷◌, true, false, arith,
  Bool-cases, leb, if◌then◌else◌,
}
use thread_and_net.TimeQueue.{
  TimeQueue, Entry, entry_ltb, uintptr_max, split_at, get_all_expired_timers, comes_first,
}
use thread_and_net.TimeQueue.Inv.{
  All, Before, Before→entry_ltb, IsSorted, Without, Apart, Owned, ArmedFor, Wf, All-mono,
}

-- The entries that are due, whatever the order.
unfoldable pub due : ℕ → List Entry → List Entry
due now [] = []
due now (x ∷ xs) = if leb x.when now then x ∷ due now xs else due now xs

unfoldable pub later : ℕ → List Entry → List Entry
later now [] = []
later now (x ∷ xs) = if leb x.when now then later now xs else x ∷ later now xs

-- `now_entry` splits by time: no address reaches `UINTPTR_MAX`.
entry_ltb-now :
    (x : Entry) (now : ℕ)
    → x.ptr < uintptr_max
    → entry_ltb x (record { when = now; ptr = uintptr_max }) ≡ leb x.when now
entry_ltb-now x now h = elim (Bool-cases (leb x.when now)) [
  | inl at ↦ rw at (Before→entry_ltb x (record { when = now; ptr = uintptr_max }) (ground arith))
  | inr past ↦ rw past (ground arith)
]

due_none : (now : ℕ) (xs : List Entry) → All (λ y. now < y.when) xs → due now xs ≡ []
unfolding due
due_none now [] h = refl
due_none now (x ∷ xs) h = ground (arith, due_none now xs h.1)

later-All : (now : ℕ) (xs : List Entry) → All (λ y. now < y.when) xs → later now xs ≡ xs
unfolding later
later-All now [] h = refl
later-All now (x ∷ xs) h = ground (arith, later-All now xs h.1)

-- On the sorted set, `lower_bound` splits off the timers that are due.
split_at-due :
    (now : ℕ) (xs : List Entry)
    → IsSorted xs
    → All (λ e. e.ptr < uintptr_max) xs
    → split_at (record { when = now; ptr = uintptr_max }) xs ≡ (due now xs, later now xs)
unfolding split_at due later
split_at-due now [] s h = refl
split_at-due now (x ∷ xs) s h = elim (Bool-cases (leb x.when now)) [
  | inl at ↦ rw (entry_ltb-now x now h.0, at, split_at-due now xs s.1 h.1) refl
  | inr past ↦
      let rest = All-mono xs (λ y b. after y b past) s.0 in
      rw (entry_ltb-now x now h.0, past, due_none now xs rest, later-All now xs rest) refl
]
  where
    after : (y : Entry) → Before x y → leb x.when now ≡ false → now < y.when
    after y b past = ground arith

comes_first-later : (now : ℕ) (xs : List Entry) → comes_first now (later now xs) ≡ true
unfolding later
comes_first-later now [] = refl
comes_first-later now (x ∷ xs) = ground (arith, comes_first-later now xs)

All-later {κ} : (P : Entry → Type κ) (now : ℕ) (xs : List Entry) → All P xs → All P (later now xs)
unfolding later
All-later P now [] h = tt
All-later P now (x ∷ xs) h = elim (Bool-cases (leb x.when now)) [
  | inl at ↦ rw at (All-later P now xs h.1)
  | inr past ↦ rw past (h.0, All-later P now xs h.1)
]

pub All-due {κ} : (P : Entry → Type κ) (now : ℕ) (xs : List Entry) → All P xs → All P (due now xs)
unfolding due
All-due P now [] h = tt
All-due P now (x ∷ xs) h = elim (Bool-cases (leb x.when now)) [
  | inl at ↦ rw at (h.0, All-due P now xs h.1)
  | inr past ↦ rw past (All-due P now xs h.1)
]

later-IsSorted : (now : ℕ) (xs : List Entry) → IsSorted xs → IsSorted (later now xs)
unfolding later
later-IsSorted now [] s = tt
later-IsSorted now (x ∷ xs) s = elim (Bool-cases (leb x.when now)) [
  | inl at ↦ rw at (later-IsSorted now xs s.1)
  | inr past ↦ rw past (All-later (Before x) now xs s.0, later-IsSorted now xs s.1)
]

later-Apart : (now : ℕ) (xs : List Entry) → Apart xs → Apart (later now xs)
unfolding later
later-Apart now [] s = tt
later-Apart now (x ∷ xs) s = elim (Bool-cases (leb x.when now)) [
  | inl at ↦ rw at (later-Apart now xs s.1)
  | inr past ↦ rw past (All-later (λ e. e.ptr ≢ x.ptr) now xs s.0, later-Apart now xs s.1)
]

pub due-Apart : (now : ℕ) (xs : List Entry) → Apart xs → Apart (due now xs)
unfolding due
due-Apart now [] s = tt
due-Apart now (x ∷ xs) s = elim (Bool-cases (leb x.when now)) [
  | inl at ↦ rw at (All-due (λ e. e.ptr ≢ x.ptr) now xs s.0, due-Apart now xs s.1)
  | inr past ↦ rw past (due-Apart now xs s.1)
]

-- The timers that are due are no longer in the set.
pub due-Without-later :
    (now : ℕ) (xs : List Entry) → Apart xs → All (λ e. Without e.ptr (later now xs)) (due now xs)
unfolding due later
due-Without-later now [] a = tt
due-Without-later now (x ∷ xs) a = elim (Bool-cases (leb x.when now)) [
  | inl at ↦ rw at (All-later (λ e. e.ptr ≢ x.ptr) now xs a.0, due-Without-later now xs a.1)
  | inr past ↦
      rw past
        (add (due now xs) (All-due (λ e. e.ptr ≢ x.ptr) now xs a.0) (due-Without-later now xs a.1))
]
  where
    add :
        (ds : List Entry)
        → All (λ e. e.ptr ≢ x.ptr) ds
        → All (λ e. Without e.ptr (later now xs)) ds
        → All (λ e. Without e.ptr (x ∷ later now xs)) ds
    add [] h k = tt
    add (d ∷ ds) h k = ((λ q. h.0 (sym q), k.0), add ds h.1 k.1)

later-ArmedFor :
    (now : ℕ) (xs : List Entry) (armed : Option ℕ)
    → IsSorted xs
    → ArmedFor armed xs
    → ArmedFor armed (later now xs)
unfolding later
later-ArmedFor now [] armed s a = tt
later-ArmedFor now (x ∷ xs) armed s (t, h, le) = elim (Bool-cases (leb x.when now)) [
  | inl at ↦ rw at (later-ArmedFor now xs armed s.1 (tail xs s.0))
  | inr past ↦ rw past (t, h, le)
]
  where
    tail : (ys : List Entry) → All (Before x) ys → ArmedFor armed ys
    tail [] b = tt
    tail (y ∷ ys) b = (t, h, ground (arith, b.0))

-- `getAllExpiredTimers` passes its assert, hands over the timers with a time up to `now`, in order,
-- and leaves the others under the invariant.
pub get_all_expired_timers_lem :
    (q : TimeQueue) (now : ℕ)
    → Wf q
    → (get_all_expired_timers q now
        ≡ some (due now q.timers, record q { timers = later now q.timers }))
      × Wf (record q { timers = later now q.timers })
unfolding get_all_expired_timers
get_all_expired_timers_lem q now w = (
  rw
      (
        split_at-due now q.timers w.sorted (All-mono q.timers (λ e o. o.3) w.owned),
        comes_first-later now q.timers,
      )
      refl,
  record {
    sorted = later-IsSorted now q.timers w.sorted;
    apart = later-Apart now q.timers w.apart;
    owned = All-later (Owned q.heap) now q.timers w.owned;
    armed_for = later-ArmedFor now q.timers q.requested w.sorted w.armed_for;
  },
)

-- ===== src/TimeQueue/Insert.antt =====
-- The ordered set: insertion keeps the order, and adds just the new entry.
use thread_and_net.Prelude.{
  ℕ, ◌≡◌, ◌≢◌, inl, inr, ◌≤◌, refl, sym, Option, some, List, [], ◌∷◌, arith, Bool-cases, ltb,
  if◌then◌else◌,
}
use thread_and_net.TimeQueue.{TimeQueue, Entry, entry_ltb, insert, comes_first, schedule}
use thread_and_net.TimeQueue.Inv.{
  All, Before, entry_ltb→Before, Before-trans, IsSorted, Without, Apart, Owned, ArmedFor, Wf,
  All-mono,
}

pub All-insert {κ} :
    (P : Entry → Type κ) (e : Entry) (xs : List Entry) → P e → All P xs → All P (insert e xs)
unfolding insert
All-insert P e [] p h = (p, tt)
All-insert P e (x ∷ xs) p h = elim (Bool-cases (entry_ltb e x)) [
  | inl below ↦ rw below (p, h)
  | inr above ↦ elim (Bool-cases (entry_ltb x e)) [
    | inl after ↦ rw (above, after) (h.0, All-insert P e xs p h.1)
    | inr same ↦ rw (above, same) h
  ]
]

pub insert-IsSorted : (e : Entry) (xs : List Entry) → IsSorted xs → IsSorted (insert e xs)
unfolding insert
insert-IsSorted e [] s = (tt, tt)
insert-IsSorted e (x ∷ xs) s = elim (Bool-cases (entry_ltb e x)) [
  | inl below ↦
      let b = entry_ltb→Before e x below in
      rw below ((b, All-mono xs (λ y h. Before-trans e x y b h) s.0), s)
  | inr above ↦ elim (Bool-cases (entry_ltb x e)) [
    | inl after ↦
        rw (above, after)
          (All-insert (Before x) e xs (entry_ltb→Before x e after) s.0, insert-IsSorted e xs s.1)
    | inr same ↦ rw (above, same) s
  ]
]

pub insert-Apart : (e : Entry) (xs : List Entry) → Without e.ptr xs → Apart xs → Apart (insert e xs)
unfolding insert
insert-Apart e [] n a = (tt, tt)
insert-Apart e (x ∷ xs) n a = elim (Bool-cases (entry_ltb e x)) [
  | inl below ↦ rw below (n, a)
  | inr above ↦ elim (Bool-cases (entry_ltb x e)) [
    | inl after ↦
        rw (above, after)
          (All-insert (λ y. y.ptr ≢ x.ptr) e xs (λ q. n.0 (sym q)) a.0, insert-Apart e xs n.1 a.1)
    | inr same ↦ rw (above, same) a
  ]
]

-- What the timerfd is armed for after an insertion into a set that is not empty.
rearmed :
    (e x : Entry) (armed : Option ℕ) (t : ℕ)
    → armed ≡ some t
    → t ≤ x.when
    → (t' : ℕ) × ((if ltb e.when x.when then some e.when else armed) ≡ some t')
      × (t' ≤ x.when)
      × (Before e x → t' ≤ e.when)
rearmed e x armed t h le = elim (Bool-cases (ltb e.when x.when)) [
  | inl earlier ↦ (e.when, rw earlier refl, ground arith, λ b. omega arith)
  | inr later ↦ (t, rw later h, le, λ b. ground arith)
]

ArmedFor-insert :
    (e : Entry) (xs : List Entry) (armed : Option ℕ)
    → ArmedFor armed xs
    → ArmedFor (if comes_first e.when xs then some e.when else armed) (insert e xs)
unfolding insert
ArmedFor-insert e [] armed a = (e.when, refl, omega arith)
ArmedFor-insert e (x ∷ xs) armed (t, h, le) =
    let (t', h', first, below) = rearmed e x armed t h le in
    elim (Bool-cases (entry_ltb e x)) [
      | inl b ↦ rw b (t', h', below (entry_ltb→Before e x b))
      | inr above ↦ elim (Bool-cases (entry_ltb x e)) [
        | inl after ↦ rw (above, after) (t', h', first)
        | inr same ↦ rw (above, same) (t', h', first)
      ]
    ]

-- A new entry, of a timer that no entry has, keeps the invariant: above all, the timerfd stays
-- armed for no later than the first timer.
pub schedule-Wf :
    (q : TimeQueue) (e : Entry) → Wf q → Owned q.heap e → Without e.ptr q.timers → Wf (schedule q e)
unfolding schedule
schedule-Wf q e w own n = record {
  sorted = insert-IsSorted e q.timers w.sorted;
  apart = insert-Apart e q.timers n w.apart;
  owned = All-insert (Owned q.heap) e q.timers own w.owned;
  armed_for = ArmedFor-insert e q.timers q.requested w.armed_for;
}

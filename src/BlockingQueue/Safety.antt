-- ===== src/BlockingQueue/Safety.antt =====
-- One thread at a time, and a `take` that never finds the queue empty.
use thread_and_net.Prelude.{ℕ, ◌≡◌, ◌≢◌, some, [], true, arith}
use thread_and_net.Lock.{lock, unlock, wait_sleep, wait_wake}
use thread_and_net.BlockingQueue.{
  BlockingQueue, System, Pc, taking, Move, put_locks, pushes, notifies, take_locks, waits,
  wait_fails, wakes, relocks, leaves_loop, pops, pop_fails, unlocks, Step, moves, Reach, here, next,
  init, is_inside,
}

record Inv (s : System) : Type 0 where
  owned : (i : ℕ) → is_inside (s.pc i) ≡ true → s.shared.mutex.mutex ≡ some i
  filled : (i : ℕ) → s.pc i ≡ taking → s.shared.queue ≢ []

-- What a move of thread `i` does, for the others to rely on.
record Moved (i : ℕ) (q : BlockingQueue) (p : Pc) (q' : BlockingQueue) (p' : Pc) : Type 0 where
  own : is_inside p' ≡ true → q'.mutex.mutex ≡ some i
  others : (j : ℕ) → j ≢ i → q.mutex.mutex ≡ some j → q'.mutex.mutex ≡ some j
  keeps : (j : ℕ) → j ≢ i → q.mutex.mutex ≡ some j → q'.queue ≡ q.queue
  full : p' ≡ taking → q'.queue ≢ []

Move-Moved :
    {i : ℕ} {q q' : BlockingQueue} {p p' : Pc}
    → Move i q p q' p'
    → (is_inside p ≡ true → q.mutex.mutex ≡ some i)
    → Moved i q p q' p'
unfolding lock unlock wait_sleep wait_wake
Move-Moved (put_locks x h) o = record {
  own = ground arith;
  others = λ j n e. ground arith;
  keeps = λ j n e. ground arith;
  full = ground arith;
}
Move-Moved {q = q} (pushes {x = x}) o = record {
  own = ground arith;
  others = λ j n e. ground arith;
  keeps = λ j n e. ground arith;
  full = ground arith;
}
Move-Moved notifies o = record {
  own = ground arith;
  others = λ j n e. ground arith;
  keeps = λ j n e. ground arith;
  full = ground arith;
}
Move-Moved (take_locks h) o = record {
  own = ground arith;
  others = λ j n e. ground arith;
  keeps = λ j n e. ground arith;
  full = ground arith;
}
Move-Moved (waits f h) o = record {
  own = ground arith;
  others = λ j n e. ground arith;
  keeps = λ j n e. ground arith;
  full = ground arith;
}
Move-Moved (wait_fails f h) o = record {
  own = ground arith;
  others = λ j n e. ground arith;
  keeps = λ j n e. ground arith;
  full = ground arith;
}
Move-Moved wakes o = record {
  own = ground arith;
  others = λ j n e. ground arith;
  keeps = λ j n e. ground arith;
  full = ground arith;
}
Move-Moved (relocks h) o = record {
  own = ground arith;
  others = λ j n e. ground arith;
  keeps = λ j n e. ground arith;
  full = ground arith;
}
Move-Moved (leaves_loop f) o = record {
  own = ground arith;
  others = λ j n e. ground arith;
  keeps = λ j n e. ground arith;
  full = ground arith;
}
Move-Moved {q = q} (pops {x = x} {xs = xs} e) o = record {
  own = ground arith;
  others = λ j n e. ground arith;
  keeps = λ j n e. ground arith;
  full = ground arith;
}
Move-Moved (pop_fails f) o = record {
  own = ground arith;
  others = λ j n e. ground arith;
  keeps = λ j n e. ground arith;
  full = ground arith;
}
Move-Moved unlocks o = record {
  own = ground arith;
  others = λ j n e. ground arith;
  keeps = λ j n e. ground arith;
  full = ground arith;
}

Step-Inv : {s t : System} → Step s t → Inv s → Inv t
Step-Inv {s} (moves i {q = q} {p = p} m) v =
    let d = Move-Moved m (v.owned i) in
    record {
      owned = λ j h. ground (arith, d.own, d.others j, v.owned j);
      filled = λ j h. ground (arith, d.full, d.keeps j, v.owned j, v.filled j);
    }

Reach-Inv : {s t : System} → Inv s → Reach s t → Inv t
Reach-Inv v here = v
Reach-Inv v (next r m) = Step-Inv m (Reach-Inv v r)

init-Inv : Inv init
unfolding init
init-Inv = record { owned = λ i h. ground arith; filled = λ i h. ground arith }

-- However the threads are interleaved, two of them never hold the mutex together: of those that are between
-- the guard's constructor and its destructor, and not in a wait, there is at most one.
pub mutual_exclusion :
    {s : System} (i j : ℕ)
    → Reach init s
    → is_inside (s.pc i) ≡ true
    → is_inside (s.pc j) ≡ true
    → i ≡ j
mutual_exclusion i j r a b =
    let v = Reach-Inv init-Inv r in ground (arith, v.owned i a, v.owned j b)

-- However the threads are interleaved, `take` does not find the queue empty after its loop: its assert
-- holds, and no other thread takes the element before.
pub taking_nonempty : {s : System} (i : ℕ) → Reach init s → s.pc i ≡ taking → s.shared.queue ≢ []
taking_nonempty i r h = (Reach-Inv init-Inv r).filled i h

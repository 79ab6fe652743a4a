-- ===== src/ThreadPool/Simulation.antt =====
-- The pool's critical sections are atomic: the threads' steps implement the operations of ThreadPool.
use thread_and_net.Prelude.{
  ℕ, ◌≡◌, ◌≢◌, ◌⊎◌, inl, inr, refl, ap, subst, Bool, true, false, none, some, List, [], ◌∷◌, arith,
  Bool-cases, ◌++◌,
}
use thread_and_net.Lock.{MutexLock, lock, unlock, wait_sleep, wait_wake}
use thread_and_net.ThreadPool
use thread_and_net.ThreadPool.{ThreadPool, add_task, take_task, stop, init, start}
use thread_and_net.ThreadPool.Threads.{
  Pc, Caller, Shared, System, has_room, is_inside, adding, Move, Step, moves, Reach, here, next,
  started, add_locks, add_waits, add_wait_fails, add_wakes, add_relocks, add_passes, add_fails,
  pushes, add_notifies, add_unlocks, loops, ends, runs_none, begins, returns, take_locks,
  take_waits, take_wait_fails, take_wakes, take_relocks, take_passes, pops, finds_none,
  take_notifies, take_unlocks, stop_returns, stop_begins, stop_locks, stop_sets, stop_notifies,
  stop_unlocks,
}

abbrev is_adding : Pc → Bool
is_adding (adding k t) = true
is_adding _ = false

-- The pool is as it was, or has made one step.
abbrev Simulated : ThreadPool → ThreadPool → Type 0
Simulated p p' = (p ≡ p') ⊎ ThreadPool.Step p p'

-- What a move of thread `i` does, for the others to rely on
record Moved (i : ℕ) (s : Shared) (s' : Shared) (p' : Pc) : Type 0 where
  own : is_inside p' ≡ true → s'.mutex.mutex ≡ some i
  others : (j : ℕ) → j ≢ i → s.mutex.mutex ≡ some j → s'.mutex.mutex ≡ some j
  keeps : (j : ℕ) → j ≢ i → s.mutex.mutex ≡ some j → s'.pool ≡ s.pool
  room : is_adding p' ≡ true → has_room s'.pool ≡ true
  simulates : Simulated s.pool s'.pool

-- A move that leaves the shared state alone
still :
    {i : ℕ} {s : Shared} {p' : Pc}
    → (is_inside p' ≡ true → s.mutex.mutex ≡ some i)
    → (is_adding p' ≡ true → has_room s.pool ≡ true)
    → Moved i s s p'
still own room = record {
  own = own;
  others = λ j n e. e;
  keeps = λ j n e. refl;
  room = room;
  simulates = inl refl;
}

-- A move that gets the mutex, or gives it up
locks :
    {i : ℕ} {s : Shared} {m : MutexLock} {p' : Pc}
    → s.mutex.mutex ≡ none
    → m.mutex ≡ some i
    → is_adding p' ≡ false
    → Moved i s (record s { mutex = m }) p'
locks free got n = record {
  own = λ _. got;
  others = λ j n e. absurd (ground arith);
  keeps = λ j n e. refl;
  room = λ h. absurd (ground arith);
  simulates = inl refl;
}

gives_up :
    {i : ℕ} {s : Shared} {m : MutexLock} {p' : Pc}
    → s.mutex.mutex ≡ some i
    → is_inside p' ≡ false
    → is_adding p' ≡ false
    → Moved i s (record s { mutex = m }) p'
gives_up mine out n = record {
  own = λ h. absurd (ground arith);
  others = λ j n e. absurd (ground arith);
  keeps = λ j n e. refl;
  room = λ h. absurd (ground arith);
  simulates = inl refl;
}

-- A move that changes the pool, inside
changes :
    {i : ℕ} {s : Shared} {q : ThreadPool} {p' : Pc}
    → s.mutex.mutex ≡ some i
    → is_adding p' ≡ false
    → Simulated s.pool q
    → Moved i s (record s { pool = q }) p'
changes mine n sim = record {
  own = λ h. mine;
  others = λ j n e. e;
  keeps = λ j n e. absurd (ground arith);
  room = λ h. absurd (ground arith);
  simulates = sim;
}

adds-Simulated :
    (p : ThreadPool) (t : ℕ)
    → has_room p ≡ true
    → Simulated p (record p { b_queue = p.b_queue ++ t ∷ []; added = p.added ++ t ∷ [] })
unfolding add_task
adds-Simulated p t h = inr (ThreadPool.adds p _ t (rw h refl))

takes-Simulated :
    (p : ThreadPool) (t : ℕ) (ts : List ℕ)
    → p.b_queue ≡ t ∷ ts
    → Simulated p (record p { b_queue = ts; taken = p.taken ++ t ∷ [] })
unfolding take_task
takes-Simulated p t ts h = inr (ThreadPool.takes p _ (some t) (rw h refl))

stops-Simulated : (p : ThreadPool) → Simulated p (record p { is_start = false })
unfolding stop
stops-Simulated p = elim (Bool-cases p.is_start) [
  | inl e ↦ inr (subst (ThreadPool.Step p) (ground arith) (ThreadPool.stops p))
  | inr e ↦ inl (ground arith)
]

Move-Moved :
    {i : ℕ} {s s' : Shared} {p p' : Pc}
    → Move i s p s' p'
    → (is_inside p ≡ true → s.mutex.mutex ≡ some i)
    → (is_adding p ≡ true → has_room s.pool ≡ true)
    → Moved i s s' p'
unfolding lock unlock wait_sleep wait_wake
Move-Moved (add_locks t h) o r = locks (ground arith) (ground arith) refl
Move-Moved (add_waits f h) o r = gives_up (o refl) refl refl
Move-Moved (add_wait_fails f h) o r = still (ground (arith, o)) (ground (arith, r))
Move-Moved add_wakes o r = still (ground (arith, o)) (ground (arith, r))
Move-Moved (add_relocks h) o r = locks (ground arith) (ground arith) refl
Move-Moved (add_passes f) o r = still (ground (arith, o)) (ground (arith, r))
Move-Moved (add_fails f) o r = still (ground (arith, o)) (ground (arith, r))
Move-Moved {s = s} (pushes {t = t}) o r = changes (o refl) refl (adds-Simulated s.pool t (r refl))
Move-Moved add_notifies o r = still (ground (arith, o)) (ground (arith, r))
Move-Moved add_unlocks o r = gives_up (o refl) refl refl
Move-Moved (loops f) o r = still (ground (arith, o)) (ground (arith, r))
Move-Moved (ends f) o r = still (ground (arith, o)) (ground (arith, r))
Move-Moved runs_none o r = still (ground (arith, o)) (ground (arith, r))
Move-Moved begins o r = still (ground (arith, o)) (ground (arith, r))
Move-Moved returns o r = still (ground (arith, o)) (ground (arith, r))
Move-Moved (take_locks h) o r = locks (ground arith) (ground arith) refl
Move-Moved (take_waits f h) o r = gives_up (o refl) refl refl
Move-Moved (take_wait_fails f h) o r = still (ground (arith, o)) (ground (arith, r))
Move-Moved take_wakes o r = still (ground (arith, o)) (ground (arith, r))
Move-Moved (take_relocks h) o r = locks (ground arith) (ground arith) refl
Move-Moved (take_passes f) o r = still (ground (arith, o)) (ground (arith, r))
Move-Moved {s = s} (pops {t = t} {ts = ts} e) o r =
    changes (o refl) refl (takes-Simulated s.pool t ts e)
Move-Moved (finds_none e) o r = still (ground (arith, o)) (ground (arith, r))
Move-Moved take_notifies o r = still (ground (arith, o)) (ground (arith, r))
Move-Moved take_unlocks o r = gives_up (o refl) refl refl
Move-Moved (stop_returns f) o r = still (ground (arith, o)) (ground (arith, r))
Move-Moved (stop_begins f) o r = still (ground (arith, o)) (ground (arith, r))
Move-Moved (stop_locks h) o r = locks (ground arith) (ground arith) refl
Move-Moved {s = s} stop_sets o r = changes (o refl) refl (stops-Simulated s.pool)
Move-Moved stop_notifies o r = still (ground (arith, o)) (ground (arith, r))
Move-Moved stop_unlocks o r = gives_up (o refl) refl refl

record Inv (p : ThreadPool) (s : System) : Type 0 where
  owned : (i : ℕ) → is_inside (s.pc i) ≡ true → s.shared.mutex.mutex ≡ some i
  room : (i : ℕ) → is_adding (s.pc i) ≡ true → has_room s.shared.pool ≡ true
  reached : ThreadPool.Reach p s.shared.pool

extend : {p q r : ThreadPool} → ThreadPool.Reach p q → Simulated q r → ThreadPool.Reach p r
extend {p} reached (inl e) = subst (ThreadPool.Reach p) e reached
extend reached (inr st) = ThreadPool.next reached st

adding_inside : (p : Pc) → is_adding p ≡ true → is_inside p ≡ true
adding_inside p h = ground arith

Step-Inv : {p : ThreadPool} {s t : System} → Step s t → Inv p s → Inv p t
Step-Inv {s = s} (moves i m) v =
    let d = Move-Moved m (v.owned i) (v.room i) in
    record {
      owned = λ j h. ground (arith, d.own, d.others j, v.owned j);
      room = λ j h. ground (arith, d.room, d.keeps j, v.owned j, v.room j, adding_inside (s.pc j));
      reached = extend v.reached d.simulates;
    }

Reach-Inv : {p : ThreadPool} {s t : System} → Inv p s → Reach s t → Inv p t
Reach-Inv v here = v
Reach-Inv v (next r m) = Step-Inv m (Reach-Inv v r)

started-Inv :
    (size_queue size_thread : ℕ)
    → Inv (start init size_queue size_thread) (started size_queue size_thread)
unfolding started
started-Inv size_queue size_thread = record {
  owned = λ i h. absurd (ground arith);
  room = λ i h. absurd (ground arith);
  reached = ThreadPool.here;
}

-- The pool's critical sections are atomic: whatever the interleaving of its threads, from the start of the
-- pool up to the joins of `stop`, the pool is in a state that whole calls of `addTask`, `take` and `stop`
-- reach, one after the other.
pub Reach-refines :
    (size_queue size_thread : ℕ) {s : System}
    → Reach (started size_queue size_thread) s
    → ThreadPool.Reach (start init size_queue size_thread) s.shared.pool
Reach-refines size_queue size_thread r = (Reach-Inv (started-Inv size_queue size_thread) r).reached

-- After its loop `addTask` finds room in the queue, so that its assert holds.
pub adding-has_room :
    (size_queue size_thread i t : ℕ) (k : Caller) {s : System}
    → Reach (started size_queue size_thread) s
    → s.pc i ≡ adding k t
    → has_room s.shared.pool ≡ true
adding-has_room size_queue size_thread i t k r h =
    let v = Reach-Inv (started-Inv size_queue size_thread) r in v.room i (ap is_adding h)

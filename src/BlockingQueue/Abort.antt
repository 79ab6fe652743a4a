-- ===== src/BlockingQueue/Abort.antt =====
-- The assert of `Condition::wait`: the flag of the mutex is not the waiting thread's own.
use thread_and_net.Prelude.{
  ℕ, ◌≡◌, ◌≢◌, refl, sym, ◌∙◌, subst, none, List, [], ◌∷◌, ◌++◌, update, false, true, Bool,
  update_self, update_ne,
}
use thread_and_net.Lock.{MutexLock, lock, unlock, wait_sleep, wait_wake}
use thread_and_net.BlockingQueue.{
  BlockingQueue, System, Pc, idle, aborted, Move, put_locks, pushes, notifies, take_locks, waits,
  wait_fails, wakes, relocks, leaves_loop, pops, unlocks, moves, Reach, here, next, init,
}

-- A later state: what is shared, where thread `i` stands, and the other threads where they were.
record After (s : System) (i : ℕ) (q : BlockingQueue) (p : Pc) : Type 0 where
  last : System
  reach : Reach s last
  shared : last.shared ≡ q
  at : last.pc i ≡ p
  others : (j : ℕ) → j ≢ i → last.pc j ≡ s.pc j

start : (s : System) (i : ℕ) → After s i s.shared (s.pc i)
start s i = record { last = s; reach = here; shared = refl; at = refl; others = λ j n. refl }

-- One more move of thread `i`
then_move :
    {s : System} {i : ℕ} {q q' : BlockingQueue} {p p' : Pc}
    → After s i q p
    → Move i q p q' p'
    → After s i q' p'
then_move {s} {i} {q = q} {q' = q'} {p' = p'} a m = record {
  last = record { shared = q'; pc = update a.last.pc i p' };
  reach = next a.reach (
      moves i (
        subst (λ r. Move i r (a.last.pc i) q' p') (sym a.shared)
          (subst (λ r. Move i q r q' p') (sym a.at) m)));
  shared = refl;
  at = update_self a.last.pc i p';
  others = λ j n. update_ne a.last.pc i j p' n ∙ a.others j n;
}

-- A mutex that nobody holds, and whose flag is off
abbrev pub free : MutexLock
free = record { mutex = none; is_lock = false }

abbrev pub queue_of : MutexLock → List ℕ → List ℕ → List ℕ → BlockingQueue
queue_of m q g t = record { mutex = m; queue = q; given = g; taken = t }

-- `put` runs through when nobody holds the mutex, whatever its flag, and turns the flag off.
put_runs :
    (i x : ℕ) (b : Bool) (q g t : List ℕ) {s : System}
    → After s i (queue_of (record { mutex = none; is_lock = b }) q g t) idle
    → After s i (queue_of free (q ++ x ∷ []) (g ++ x ∷ []) t) idle
unfolding lock unlock
put_runs i x b q g t a =
    then_move (then_move (then_move (then_move a (put_locks x refl)) pushes) notifies) unlocks

-- So does `take`, of the first element.
take_runs :
    (i x : ℕ) (b : Bool) (q g t : List ℕ) {s : System}
    → After s i (queue_of (record { mutex = none; is_lock = b }) (x ∷ q) g t) idle
    → After s i (queue_of free q g (t ++ x ∷ [])) idle
unfolding lock unlock
take_runs i x b q g t a =
    then_move (then_move (then_move (then_move a (take_locks refl)) (leaves_loop refl)) (pops refl))
      unlocks

-- Another thread goes on from there.
hand_over :
    {s : System} {i : ℕ} {q : BlockingQueue} {p : Pc} (a : After s i q p) (j : ℕ) {r : Pc}
    → a.last.pc j ≡ r
    → After a.last j q r
hand_over a j e = record {
  last = a.last;
  reach = here;
  shared = a.shared;
  at = e;
  others = λ k n. refl;
}

Reach-trans : {s t u : System} → Reach s t → Reach t u → Reach s u
Reach-trans r here = r
Reach-trans r (next r' m) = next (Reach-trans r r') m

-- Three threads, whichever they are, that use the queue as it is meant to be used can end the
-- process: `i` waits for an element, `j` puts one, and `k` takes it before `i` has the mutex back.
-- The flag is off by then, and the assert at the head of the second wait of `i` fails.
pub take_aborts :
    (i j k x : ℕ) → i ≢ j → i ≢ k → j ≢ k → (s : System) × Reach init s × (s.pc i ≡ aborted)
unfolding lock wait_sleep wait_wake init
take_aborts i j k x ij ik jk =
    let asleep = then_move (then_move (start init i) (take_locks refl)) (waits refl refl) in
    let put = put_runs j x true [] [] [] (hand_over asleep j (asleep.others j (λ e. ij (sym e)))) in
    let took =
      take_runs k x false [] (x ∷ []) []
        (hand_over put k (put.others k (λ e. jk (sym e)) ∙ asleep.others k (λ e. ik (sym e)))) in
    let again = hand_over took i (took.others i ik ∙ put.others i ij ∙ asleep.at) in
    let over =
      then_move (then_move (then_move again wakes) (relocks refl)) (wait_fails refl refl) in
    (
      over.last,
      Reach-trans (Reach-trans (Reach-trans asleep.reach put.reach) took.reach) over.reach,
      over.at,
    )

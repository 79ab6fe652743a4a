-- ===== src/ThreadPool/Signals.antt =====
-- The pool's conditions: a thread that waits goes on once a `notify` has chosen it, or, as a wait may, by
-- itself; `alone` marks the threads that have done so. The pool is not started again.
use thread_and_net.Prelude.{ℕ, ◌≡◌, ◌⊎◌, Bool, true, false, not, ◌&&◌, update, if◌then◌else◌}
use thread_and_net.ThreadPool.Threads.{
  Pc, Shared, System, Move, add_sleeping, take_sleeping, add_waits, add_wakes, add_notifies,
  take_waits, take_wakes, take_notifies, stop_notifies,
}

-- What a move does to the conditions: `wait` begins or ends, `cond_notFull_.notify`,
-- `cond_notEmpty_.notify`, or `cond_notEmpty_.notifyAll`.
pub data Signal : Type 0 where
  silent waits wakes one_adder one_taker all_takers : Signal

unfoldable pub signal : {i : ℕ} {s s' : Shared} {p p' : Pc} → Move i s p s' p' → Signal
signal (add_waits f w) = waits
signal add_wakes = wakes
signal add_notifies = one_taker
signal (take_waits f w) = waits
signal take_wakes = wakes
signal take_notifies = one_adder
signal stop_notifies = all_takers
signal _ = silent

-- Does a thread at this place wait on the condition of the signal?
unfoldable pub hears : Signal → Pc → Bool
hears one_adder (add_sleeping k t) = true
hears one_taker take_sleeping = true
hears all_takers take_sleeping = true
hears _ _ = false

-- `woken` marks the threads that a `notify` has chosen.
pub record Signalled : Type 0 where
  pub system : System
  pub woken : ℕ → Bool
  pub alone : ℕ → Bool

abbrev pub after : Signalled → ℕ → Shared → Pc → System
after x i q p = record { shared = q; pc = update x.system.pc i p }

pub data Step (x : Signalled) : Signalled → Type 0 where
  moves :
      (i : ℕ) {q : Shared} {p : Pc} (m : Move i x.system.shared (x.system.pc i) q p)
      → signal m ≡ silent
      → Step x (record { system = after x i q p; woken = x.woken; alone = x.alone })
  falls_asleep :
      (i : ℕ) {q : Shared} {p : Pc} (m : Move i x.system.shared (x.system.pc i) q p)
      → signal m ≡ waits
      → Step x (record { system = after x i q p; woken = update x.woken i false; alone = x.alone })
  goes_on :
      (i : ℕ) {q : Shared} {p : Pc} (m : Move i x.system.shared (x.system.pc i) q p)
      → signal m ≡ wakes
      → x.woken i ≡ true
      → Step x (record { system = after x i q p; woken = x.woken; alone = x.alone })
  wakes_alone :
      (i : ℕ) {q : Shared} {p : Pc} (m : Move i x.system.shared (x.system.pc i) q p)
      → signal m ≡ wakes
      → Step x (record { system = after x i q p; woken = x.woken; alone = update x.alone i true })
  notifies :
      (i j : ℕ) {q : Shared} {p : Pc} (m : Move i x.system.shared (x.system.pc i) q p)
      → (hears (signal m) (x.system.pc j) && not (x.woken j)) ≡ true
      → Step x (record { system = after x i q p; woken = update x.woken j true; alone = x.alone })
  notifies_nobody :
      (i : ℕ) {q : Shared} {p : Pc} (m : Move i x.system.shared (x.system.pc i) q p)
      → (signal m ≡ one_adder) ⊎ (signal m ≡ one_taker)
      → ((j : ℕ) → (hears (signal m) (x.system.pc j) && not (x.woken j)) ≡ false)
      → Step x (record { system = after x i q p; woken = x.woken; alone = x.alone })
  notifies_all :
      (i : ℕ) {q : Shared} {p : Pc} (m : Move i x.system.shared (x.system.pc i) q p)
      → signal m ≡ all_takers
      → Step x (record {
        system = after x i q p;
        woken = λ j. if hears all_takers (x.system.pc j) then true else x.woken j;
        alone = x.alone;
      })

pub data Reach (x : Signalled) : Signalled → Type 0 where
  here : Reach x x
  next : {y z : Signalled} → Reach x y → Step y z → Reach x z

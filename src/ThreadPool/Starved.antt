-- ===== src/ThreadPool/Starved.antt =====
-- A thread that waits in `addTask` when the workers have ended.
use thread_and_net.Prelude.{ℕ, ◌≡◌, ◌≢◌, refl, ap, sym, ◌∙◌, Bool, true, false, update, arith}
use native.Mathlib.Decide.{ℕ_discrete}
use thread_and_net.ThreadPool.Threads.{
  Pc, Caller, joining, stop_leaving, stop_notifying, stopping, stop_entering, add_leaving,
  add_notifying, adding, add_woken, add_checking, user, task, calling, Shared, Move, looping,
  take_entering, take_checking, take_sleeping, take_woken, taking, take_notifying, take_leaving,
  running, add_sleeping, add_locks, add_waits, add_wait_fails, add_wakes, add_relocks, add_passes,
  add_fails, pushes, add_notifies, add_unlocks, loops, ends, runs_none, begins, returns, take_locks,
  take_waits, take_wait_fails, take_wakes, take_relocks, take_passes, pops, finds_none,
  take_notifies, take_unlocks, stop_returns, stop_begins, stop_locks, stop_sets, stop_notifies,
  stop_unlocks,
}
use thread_and_net.ThreadPool.Signals.{
  Signal, silent, waits, wakes, one_adder, one_taker, all_takers, signal, hears, Signalled, after,
  Step, Reach, moves, falls_asleep, goes_on, wakes_alone, notifies, notifies_nobody, notifies_all,
  here, next,
}

abbrev pub is_task : Caller → Bool
is_task user = false
is_task (task t) = true

-- In `runInThread`, and not at its end
abbrev pub is_working : Pc → Bool
is_working looping = true
is_working take_entering = true
is_working take_checking = true
is_working take_sleeping = true
is_working take_woken = true
is_working taking = true
is_working (take_notifying t) = true
is_working (take_leaving t) = true
is_working (running t) = true
is_working (calling k) = is_task k
is_working (add_checking k t) = is_task k
is_working (add_sleeping k t) = is_task k
is_working (add_woken k t) = is_task k
is_working (adding k t) = is_task k
is_working (add_notifying k) = is_task k
is_working (add_leaving k) = is_task k
is_working (stop_entering k) = is_task k
is_working (stopping k) = is_task k
is_working (stop_notifying k) = is_task k
is_working (stop_leaving k) = is_task k
is_working (joining k) = is_task k
is_working _ = false

abbrev is_asleep : Pc → Bool
is_asleep (add_sleeping k t) = true
is_asleep _ = false

abbrev is_for_adders : Signal → Bool
is_for_adders one_adder = true
is_for_adders _ = false

-- A thread of the user stays one, and does not notify the threads in `addTask`; one that sleeps there only
-- wakes.
user_stays :
    {i : ℕ} {s s' : Shared} {p p' : Pc} (m : Move i s p s' p')
    → is_working p ≡ false
    → (is_working p' ≡ false)
      × (is_for_adders (signal m) ≡ false)
      × (is_asleep p ≡ true → signal m ≡ wakes)
unfolding signal
user_stays (add_locks t e) u = (u, refl, λ h. absurd (ground arith))
user_stays (add_waits f w) u = (u, refl, λ h. absurd (ground arith))
user_stays (add_wait_fails f w) u = (refl, refl, λ h. absurd (ground arith))
user_stays add_wakes u = (u, refl, λ _. refl)
user_stays (add_relocks w) u = (u, refl, λ h. absurd (ground arith))
user_stays (add_passes f) u = (u, refl, λ h. absurd (ground arith))
user_stays (add_fails f) u = (refl, refl, λ h. absurd (ground arith))
user_stays pushes u = (u, refl, λ h. absurd (ground arith))
user_stays add_notifies u = (u, refl, λ h. absurd (ground arith))
user_stays add_unlocks u = (u, refl, λ h. absurd (ground arith))
user_stays (loops e) u = absurd (ground arith)
user_stays (ends e) u = absurd (ground arith)
user_stays runs_none u = absurd (ground arith)
user_stays begins u = absurd (ground arith)
user_stays returns u = absurd (ground arith)
user_stays (take_locks e) u = absurd (ground arith)
user_stays (take_waits f w) u = absurd (ground arith)
user_stays (take_wait_fails f w) u = absurd (ground arith)
user_stays take_wakes u = absurd (ground arith)
user_stays (take_relocks w) u = absurd (ground arith)
user_stays (take_passes f) u = absurd (ground arith)
user_stays (pops e) u = absurd (ground arith)
user_stays (finds_none e) u = absurd (ground arith)
user_stays take_notifies u = absurd (ground arith)
user_stays take_unlocks u = absurd (ground arith)
user_stays (stop_returns e) u = (u, refl, λ h. absurd (ground arith))
user_stays (stop_begins e) u = (u, refl, λ h. absurd (ground arith))
user_stays (stop_locks e) u = (u, refl, λ h. absurd (ground arith))
user_stays stop_sets u = (u, refl, λ h. absurd (ground arith))
user_stays stop_notifies u = (u, refl, λ h. absurd (ground arith))
user_stays stop_unlocks u = (u, refl, λ h. absurd (ground arith))

heard-asleep : (g : Signal) (k : Caller) (t : ℕ) → hears g (add_sleeping k t) ≡ is_for_adders g
unfolding hears
heard-asleep silent k t = refl
heard-asleep waits k t = refl
heard-asleep wakes k t = refl
heard-asleep one_adder k t = refl
heard-asleep one_taker k t = refl
heard-asleep all_takers k t = refl

record Inv (i t : ℕ) (c : Caller) (x : Signalled) : Type 0 where
  asleep : x.system.pc i ≡ add_sleeping c t
  unwoken : x.woken i ≡ false
  users : (j : ℕ) → is_working (x.system.pc j) ≡ false

-- A move that is no end of a wait is another thread's.
is_other :
    (i t k : ℕ) (c : Caller) (x : Signalled) {q : Shared} {p : Pc}
    (m : Move k x.system.shared (x.system.pc k) q p)
    → Inv i t c x
    → signal m ≢ wakes
    → i ≢ k
is_other i t k c x m v n same =
    n ((user_stays m (v.users k)).2 (ap is_asleep (ap x.system.pc (sym same) ∙ v.asleep)))

-- Another thread has moved, and thread `i` is still not chosen.
other-Inv :
    (i t k : ℕ) (c : Caller) (x : Signalled) {q : Shared} {p : Pc}
    (m : Move k x.system.shared (x.system.pc k) q p) (woken alone : ℕ → Bool)
    → Inv i t c x
    → i ≢ k
    → woken i ≡ false
    → Inv i t c (record { system = after x k q p; woken = woken; alone = alone })
other-Inv i t k c x m woken alone v other w =
    let user = (user_stays m (v.users k)).0 in
    record {
      asleep = ground (arith, v.asleep);
      unwoken = w;
      users = λ j. ground (arith, v.users j);
    }

-- No thread of the user notifies thread `i`.
unheard :
    (i t k : ℕ) (c : Caller) (x : Signalled) {q : Shared} {p : Pc}
    (m : Move k x.system.shared (x.system.pc k) q p)
    → Inv i t c x
    → hears (signal m) (x.system.pc i) ≡ false
unheard i t k c x m v =
    ap (hears (signal m)) v.asleep ∙ heard-asleep (signal m) c t ∙ (user_stays m (v.users k)).1

Step-Inv :
    {i t : ℕ} {c : Caller} {x y : Signalled}
    → Step x y
    → y.alone i ≡ false
    → Inv i t c x
    → Inv i t c y
unfolding hears
Step-Inv {i} {t} {c} {x} (moves k m e) l v =
    other-Inv i t k c x m x.woken x.alone v (is_other i t k c x m v (λ h. absurd (ground arith)))
      v.unwoken
Step-Inv {i} {t} {c} {x} (falls_asleep k m e) l v =
    other-Inv i t k c x m (update x.woken k false) x.alone v
      (is_other i t k c x m v (λ h. absurd (ground arith))) (ground (arith, v.unwoken))
Step-Inv {i} {t} {c} {x} (goes_on k m e w) l v =
    other-Inv i t k c x m x.woken x.alone v (λ same. ground (arith, v.unwoken, ap x.woken same))
      v.unwoken
Step-Inv {i} {t} {c} {x} (wakes_alone k m e) l v =
    other-Inv i t k c x m x.woken (update x.alone k true) v
      (λ same. ground (arith, ap x.alone same)) v.unwoken
Step-Inv {i} {t} {c} {x} (notifies k j m h) l v =
    let wakes_nobody : signal m ≢ wakes =
      λ e. ground (arith, ap (λ g. hears g (x.system.pc j)) e) in
    other-Inv i t k c x m (update x.woken j true) x.alone v (is_other i t k c x m v wakes_nobody)
      (elim (ℕ_discrete i j) [
        | yes same ↦ absurd (ground (arith, unheard i t k c x m v, ap x.system.pc same))
        | no ne ↦ ground (arith, v.unwoken)
      ])
Step-Inv {i} {t} {c} {x} (notifies_nobody k m e n) l v =
    other-Inv i t k c x m x.woken x.alone v (is_other i t k c x m v (λ h. absurd (ground arith)))
      v.unwoken
Step-Inv {i} {t} {c} {x} (notifies_all k m e) l v =
    other-Inv i t k c x m _ x.alone v (is_other i t k c x m v (λ h. absurd (ground arith)))
      (ground (arith, v.unwoken, v.asleep))

-- A mark stays.
alone_stays : {x y : Signalled} (i : ℕ) → Step x y → y.alone i ≡ false → x.alone i ≡ false
alone_stays i (moves k m e) l = l
alone_stays i (falls_asleep k m e) l = l
alone_stays i (goes_on k m e w) l = l
alone_stays i (wakes_alone k m e) l = ground arith
alone_stays i (notifies k j m h) l = l
alone_stays i (notifies_nobody k m e n) l = l
alone_stays i (notifies_all k m e) l = l

Reach-Inv :
    {i t : ℕ} {c : Caller} {x y : Signalled}
    → Inv i t c x
    → Reach x y
    → y.alone i ≡ false
    → Inv i t c y
Reach-Inv v here l = v
Reach-Inv {i} v (next r s) l = Step-Inv s l (Reach-Inv v r (alone_stays i s l))

-- A thread that waits in `addTask`, and that no `notify` has chosen, is not woken by any `notify`
-- once all workers have ended, whatever the other threads do, and though the queue may have room:
-- it still waits, unless its wait has returned by itself. The pool is not started again.
pub starved :
    (i t : ℕ) (c : Caller) (x y : Signalled)
    → x.system.pc i ≡ add_sleeping c t
    → x.woken i ≡ false
    → ((j : ℕ) → is_working (x.system.pc j) ≡ false)
    → Reach x y
    → y.alone i ≡ false
    → (y.system.pc i ≡ add_sleeping c t) × (y.woken i ≡ false)
starved i t c x y a w u r l =
    let v = Reach-Inv (record { asleep = a; unwoken = w; users = u }) r l in (v.asleep, v.unwoken)

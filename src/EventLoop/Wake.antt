-- ===== src/EventLoop/Wake.antt =====
-- The loop does not sleep on functors, or on a request to quit.
use thread_and_net.Prelude.{
  ℕ, ◌≡◌, ◌≢◌, refl, ◌∙◌, true, false, List, [], ◌∷◌, ◌++◌, arith, some, not, ◌||◌, ◌==◌,
}
use thread_and_net.EventLoop.{
  EventLoop, Phase, calling, dispatching, polling, Step, other_appends, other_quits, poll_returns,
  wakeup_read, channel_appends, channel_quits, takes, runs, functor_quits, ends, Reach, start_loop,
  here, next, init, append_func_in_loop, append_all, quit, handle_read, take_functors, end_functors,
  run_one,
}

-- If the loop is in poll(2), or about to be, then work that waits has woken it.
pub record Awake (p : Phase) (l : EventLoop) : Type 0 where
  pub waits : p ≢ dispatching → l.appended ≢ [] → l.woken ≡ true
  pub quits : p ≡ polling → l.quit ≡ true → l.woken ≡ true
  pub marks : p ≡ calling → l.calling_pending_functors ≡ true

append_woken :
    (tid : ℕ) (l : EventLoop) (cb : ℕ)
    → (not (tid == l.thread_id) || l.calling_pending_functors) ≡ true
    → (append_func_in_loop tid l cb).woken ≡ true
unfolding append_func_in_loop
append_woken tid l cb h = rw h refl

pub append_marks :
    (tid : ℕ) (l : EventLoop) (cb : ℕ)
    → (append_func_in_loop tid l cb).calling_pending_functors ≡ l.calling_pending_functors
unfolding append_func_in_loop
append_marks tid l cb = ground arith

append_quits : (tid : ℕ) (l : EventLoop) (cb : ℕ) → (append_func_in_loop tid l cb).quit ≡ l.quit
unfolding append_func_in_loop
append_quits tid l cb = ground arith

append_or :
    (tid : ℕ) (l : EventLoop) (cb : ℕ)
    → l.woken ≡ true
    → (append_func_in_loop tid l cb).woken ≡ true
unfolding append_func_in_loop
append_or tid l cb h = ground arith

-- A round's functors append while `callingPendingFunctors_` is set.
append_all-Awake :
    (tid : ℕ) (l : EventLoop) (cbs : List ℕ)
    → Awake calling l
    → Awake calling (append_all tid l cbs)
unfolding append_all
append_all-Awake tid l [] a = a
append_all-Awake tid l (cb ∷ cbs) a =
    append_all-Awake tid (append_func_in_loop tid l cb) cbs (record {
      waits = λ _ _. append_woken tid l cb (ground (arith, a.marks refl));
      quits = λ h. absurd (ground arith);
      marks = λ _. append_marks tid l cb ∙ a.marks refl;
    })

quit_woken : (tid : ℕ) (l : EventLoop) → (tid == l.thread_id) ≡ false → (quit tid l).woken ≡ true
unfolding quit
quit_woken tid l h = rw h refl

quit_or : (tid : ℕ) (l : EventLoop) → l.woken ≡ true → (quit tid l).woken ≡ true
unfolding quit
quit_or tid l h = ground arith

quit_appended : (tid : ℕ) (l : EventLoop) → (quit tid l).appended ≡ l.appended
unfolding quit
quit_appended tid l = ground arith

pub quit_marks :
    (tid : ℕ) (l : EventLoop) → (quit tid l).calling_pending_functors ≡ l.calling_pending_functors
unfolding quit
quit_marks tid l = ground arith

quit-Awake :
    (p : Phase) (tid : ℕ) (l : EventLoop)
    → (p ≡ polling → (quit tid l).woken ≡ true)
    → Awake p l
    → Awake p (quit tid l)
quit-Awake p tid l w a = record {
  waits = λ n some_wait. quit_or tid l (a.waits n (λ e. some_wait (quit_appended tid l ∙ e)));
  quits = λ h _. w h;
  marks = λ h. quit_marks tid l ∙ a.marks h;
}

module _ (calls : ℕ → List ℕ) where
  run_one-Awake :
      (l : EventLoop) (cb : ℕ) (cbs : List ℕ)
      → Awake calling l
      → Awake calling (run_one calls l cb cbs)
  unfolding run_one
  run_one-Awake l cb cbs a =
      append_all-Awake l.thread_id (record l { running = cbs; ran = l.ran ++ cb ∷ [] }) (calls cb)
        (record { waits = a.waits; quits = a.quits; marks = a.marks })

  pub Step-Awake : {p q : Phase} {l l' : EventLoop} → Step calls p l q l' → Awake p l → Awake q l'
  unfolding handle_read take_functors end_functors
  Step-Awake (other_appends p l tid cb h) a =
      let w = append_woken tid l cb (rw h refl) in
      record { waits = λ _ _. w; quits = λ _ _. w; marks = λ e. append_marks tid l cb ∙ a.marks e }
  Step-Awake (other_quits p l tid h) a = quit-Awake p tid l (λ _. quit_woken tid l h) a
  Step-Awake (poll_returns l) a = record {
    waits = λ n. absurd (n refl);
    quits = λ e. absurd (ground arith);
    marks = λ e. absurd (ground arith);
  }
  Step-Awake (wakeup_read l) a = record {
    waits = λ n. absurd (n refl);
    quits = λ e. absurd (ground arith);
    marks = λ e. absurd (ground arith);
  }
  Step-Awake (channel_appends l cb) a = record {
    waits = λ n. absurd (n refl);
    quits = λ e. absurd (ground arith);
    marks = λ e. absurd (ground arith);
  }
  Step-Awake (channel_quits l) a =
      quit-Awake dispatching l.thread_id l (λ e. absurd (ground arith)) a
  Step-Awake (takes l) a = record {
    waits = λ _ n. absurd (n refl);
    quits = λ e. absurd (ground arith);
    marks = λ _. refl;
  }
  Step-Awake (runs l cb cbs h) a = run_one-Awake l cb cbs a
  Step-Awake (functor_quits l) a = quit-Awake calling l.thread_id l (λ e. absurd (ground arith)) a
  Step-Awake (ends l h n) a = record {
    waits = λ _ w. a.waits (λ e. ground arith) w;
    quits = λ _ q. absurd (ground arith);
    marks = λ e. absurd (ground arith);
  }

  Reach-Awake :
      {p : Phase} {l : EventLoop} {q : Phase} {l' : EventLoop}
      → Awake p l
      → Reach calls p l q l'
      → Awake q l'
  Reach-Awake a here = a
  Reach-Awake a (next r s) = Step-Awake s (Reach-Awake a r)

-- The loop never sleeps on a functor that waits: whenever it is in poll(2), or about to be, and
-- functors wait, the wake-up descriptor is readable, so that poll(2) returns at once.
pub loop-woken :
    (calls : ℕ → List ℕ) (tid : ℕ) {l l' : EventLoop}
    → start_loop tid (init tid) ≡ some l
    → Reach calls polling l polling l'
    → l'.appended ≢ []
    → l'.woken ≡ true
unfolding start_loop init
loop-woken calls tid {l = l} h r n =
    let start : Awake polling l = record {
      waits = λ _ w. absurd (w (ground arith));
      quits = λ _ q. absurd (ground arith);
      marks = λ e. absurd (ground arith);
    } in
    (Reach-Awake calls start r).waits (λ e. ground arith) n

-- Nor does it sleep on a request to quit.
pub loop-woken_quit :
    (calls : ℕ → List ℕ) (tid : ℕ) {l l' : EventLoop}
    → start_loop tid (init tid) ≡ some l
    → Reach calls polling l polling l'
    → l'.quit ≡ true
    → l'.woken ≡ true
unfolding start_loop init
loop-woken_quit calls tid {l = l} h r n =
    let start : Awake polling l = record {
      waits = λ _ w. absurd (w (ground arith));
      quits = λ _ q. absurd (ground arith);
      marks = λ e. absurd (ground arith);
    } in
    (Reach-Awake calls start r).quits refl n

-- ===== src/EventLoop/Halves.antt =====
-- `appendFuncInLoop` and `quit` of another thread in their two halves: the change, under the mutex or of
-- `quit_`, and later the write to the wake-up descriptor. `wakers` counts the threads that are between.
use thread_and_net.Prelude.{
  ℕ, ◌+◌, ◌≡◌, ◌≢◌, inl, inr, refl, ◌∙◌, Bool, true, false, List, [], ◌∷◌, ◌++◌, arith, some, ltb,
  not, ◌||◌, Bool-cases,
}
use thread_and_net.EventLoop as Whole
use thread_and_net.EventLoop.{
  EventLoop, Before, made, appends, quits, Phase, calling, dispatching, polling, other_appends,
  other_quits, poll_returns, wakeup_read, channel_appends, channel_quits, takes, runs,
  functor_quits, ends, start_loop, init, append_func_in_loop, append_all, quit, take_functors,
  end_functors, run_one, wake_fd, is_in_loop_thread,
}
use thread_and_net.EventLoop.Wake.{Awake, append_marks, quit_marks, Step-Awake}

pub record Halves : Type 0 where
  pub loop : EventLoop
  pub wakers : ℕ

module _ (calls : ℕ → List ℕ) where
  -- A step of the loop's own thread
  abbrev pub is_own : {p q : Phase} {l l' : EventLoop} → Whole.Step calls p l q l' → Bool
  is_own (other_appends p l tid cb h) = false
  is_own (other_quits p l tid h) = false
  is_own _ = true

  pub data Step (h : Halves) : Phase → Phase → Halves → Type 0 where
    loops :
        {p q : Phase} {l : EventLoop} (st : Whole.Step calls p h.loop q l)
        → is_own st ≡ true
        → Step h p q (record h { loop = l })
    other_pushes :
        {p : Phase} (tid cb : ℕ)
        → is_in_loop_thread tid h.loop ≡ false
        → Step h p p (record {
          loop = record (h.loop) {
            appended = h.loop.appended ++ cb ∷ [];
            given = h.loop.given ++ cb ∷ [];
          };
          wakers = h.wakers + 1;
        })
    other_sets_quit :
        {p : Phase} (tid : ℕ)
        → is_in_loop_thread tid h.loop ≡ false
        → Step h p p (record { loop = record (h.loop) { quit = true }; wakers = h.wakers + 1 })
    other_wakes :
        {p : Phase} {n : ℕ}
        → h.wakers ≡ n + 1
        → Step h p p (record { loop = wake_fd h.loop; wakers = n })

  pub data Reach (p : Phase) (h : Halves) : Phase → Halves → Type 0 where
    here : Reach p h p h
    next : {q r : Phase} {h' h'' : Halves} → Reach p h q h' → Step h' q r h'' → Reach p h r h''

  -- With no thread between the halves the loop is awake as in the model of whole calls.
  record Inv (p : Phase) (h : Halves) : Type 0 where
    awake : h.wakers ≡ 0 → Awake p h.loop
    marks : p ≡ calling → h.loop.calling_pending_functors ≡ true

  append_all_marks :
      (tid : ℕ) (l : EventLoop) (cbs : List ℕ)
      → (append_all tid l cbs).calling_pending_functors ≡ l.calling_pending_functors
  unfolding append_all
  append_all_marks tid l [] = refl
  append_all_marks tid l (cb ∷ cbs) =
      append_all_marks tid (append_func_in_loop tid l cb) cbs ∙ append_marks tid l cb

  own_marks :
      {p q : Phase} {l l' : EventLoop} (st : Whole.Step calls p l q l')
      → is_own st ≡ true
      → (p ≡ calling → l.calling_pending_functors ≡ true)
      → q ≡ calling
      → l'.calling_pending_functors ≡ true
  unfolding take_functors run_one
  own_marks (other_appends p l tid cb h) o m e = absurd (ground arith)
  own_marks (other_quits p l tid h) o m e = absurd (ground arith)
  own_marks (poll_returns l) o m e = absurd (ground arith)
  own_marks (wakeup_read l) o m e = absurd (ground arith)
  own_marks (channel_appends l cb) o m e = absurd (ground arith)
  own_marks (channel_quits l) o m e = absurd (ground arith)
  own_marks (takes l) o m e = refl
  own_marks (runs l cb cbs h) o m e =
      append_all_marks l.thread_id (record l { running = cbs; ran = l.ran ++ cb ∷ [] }) (calls cb)
      ∙ m refl
  own_marks (functor_quits l) o m e = quit_marks l.thread_id l ∙ m refl
  own_marks (ends l h n) o m e = absurd (ground arith)

  Step-Inv : {p q : Phase} {h h' : Halves} → Step h p q h' → Inv p h → Inv q h'
  Step-Inv (loops st o) i = record {
    awake = λ e. Step-Awake calls st (i.awake e);
    marks = own_marks st o i.marks;
  }
  Step-Inv (other_pushes tid cb n) i = record { awake = λ e. absurd (omega arith); marks = i.marks }
  Step-Inv (other_sets_quit tid n) i = record { awake = λ e. absurd (omega arith); marks = i.marks }
  Step-Inv (other_wakes e) i = record {
    awake = λ _. record { waits = λ _ _. refl; quits = λ _ _. refl; marks = i.marks };
    marks = i.marks;
  }

  Reach-Inv :
      {p : Phase} {h : Halves} {q : Phase} {h' : Halves} → Inv p h → Reach p h q h' → Inv q h'
  Reach-Inv i here = i
  Reach-Inv i (next r s) = Step-Inv s (Reach-Inv i r)

-- Functors wait, or the loop is asked to quit.
abbrev is_empty : List ℕ → Bool
is_empty [] = true
is_empty (x ∷ xs) = false

abbrev pub has_work : EventLoop → Bool
has_work l = not (is_empty l.appended) || l.quit

before_marks : {tid : ℕ} {l : EventLoop} → Before tid l → l.calling_pending_functors ≡ false
unfolding init
before_marks made = refl
before_marks (appends t cb {l = l} b) = append_marks t l cb ∙ before_marks b
before_marks (quits t {l = l} b) = quit_marks t l ∙ before_marks b

-- No wake-up is lost, even where other threads are stopped between the change and the write: if the
-- wake-up descriptor was readable when `loop` was called, or no functor waited then, then whenever
-- the loop is in poll(2), or about to be, and it has functors or a request to quit, the descriptor
-- is readable, or some thread is about to write it.
pub halves-woken :
    (calls : ℕ → List ℕ) (tid : ℕ) {l₀ l : EventLoop} {h : Halves}
    → Before tid l₀
    → (is_empty l₀.appended || l₀.woken) ≡ true
    → start_loop tid l₀ ≡ some l
    → Reach calls polling (record { loop = l; wakers = 0 }) polling h
    → has_work h.loop ≡ true
    → (h.loop.woken || ltb 0 h.wakers) ≡ true
unfolding start_loop
halves-woken calls tid {l₀ = l₀} {l = l} {h = h} b heard e r w =
    let start : Awake polling l = record {
      waits = λ _ n. woken_at_first n;
      quits = λ _ q. absurd (ground arith);
      marks = λ x. absurd (ground arith);
    } in
    let i = Reach-Inv calls (record { awake = λ _. start; marks = λ x. absurd (ground arith) }) r in
    elim (Bool-cases (ltb 0 h.wakers)) [
      | inl some_wake ↦ ground arith
      | inr none_wake ↦
          let a = i.awake (ground arith) in
          elim (Bool-cases (is_empty h.loop.appended)) [
            | inl nothing ↦ ground (arith, a.quits refl)
            | inr waits ↦ ground (arith, a.waits (λ x. ground arith) (λ x. ground arith))
          ]
    ]
  where
    woken_at_first : l.appended ≢ [] → l.woken ≡ true
    woken_at_first n = elim (Bool-cases (is_empty l₀.appended)) [
      | inl nothing ↦ absurd (n (ground arith))
      | inr waits ↦ ground arith
    ]

-- What its own thread hands over before `loop` does not: the loop may sleep on it.
pub own_append_sleeps :
    (tid cb : ℕ)
    → (l₀ : EventLoop) × (l : EventLoop) × Before tid l₀
      × (start_loop tid l₀ ≡ some l)
      × (has_work l ≡ true)
      × (l.woken ≡ false)
unfolding start_loop init append_func_in_loop
own_append_sleeps tid cb = (
  append_func_in_loop tid (init tid) cb,
  record (append_func_in_loop tid (init tid) cb) { looping = true; quit = false },
  appends tid cb made,
  ground arith,
  ground arith,
  ground arith,
)

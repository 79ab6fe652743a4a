-- ===== src/EventLoop/Order.antt =====
-- The functors run once each, in the order in which they were appended.
use thread_and_net.Prelude.{
  Bool-cases, ap₂, some, inl, inr, not, ◌||◌, ◌==◌, ℕ, ◌≡◌, refl, ap, ◌∙◌, sym, List, [], ◌∷◌, ◌++◌,
  arith, append_assoc, append-nil,
}
use thread_and_net.EventLoop.{
  EventLoop, Before, made, appends, quits, Phase, calling, dispatching, polling, Step,
  other_appends, other_quits, poll_returns, wakeup_read, channel_appends, channel_quits, takes,
  runs, functor_quits, ends, Reach, start_loop, here, next, init, append_func_in_loop, append_all,
  quit, handle_read, take_functors, end_functors, run_one,
}

-- What was handed over has been run, is being run, or waits.
pub record InOrder (l : EventLoop) : Type 0 where
  pub in_order : l.given ≡ l.ran ++ (l.running ++ l.appended)

push : (g r w a : List ℕ) (cb : ℕ) → g ≡ r ++ (w ++ a) → g ++ cb ∷ [] ≡ r ++ (w ++ (a ++ cb ∷ []))
push g r w a cb h =
    ap (λ x. x ++ cb ∷ []) h
    ∙ append_assoc r (w ++ a) (cb ∷ [])
    ∙ ap (◌++◌ r) (append_assoc w a (cb ∷ []))

-- What an append changes, whether or not it wakes the loop.
append_func_in_loop-fields :
    (tid : ℕ) (l : EventLoop) (cb : ℕ)
    → ((append_func_in_loop tid l cb).given ≡ l.given ++ cb ∷ [])
      × ((append_func_in_loop tid l cb).appended ≡ l.appended ++ cb ∷ [])
      × ((append_func_in_loop tid l cb).ran ≡ l.ran)
      × ((append_func_in_loop tid l cb).running ≡ l.running)
unfolding append_func_in_loop
append_func_in_loop-fields tid l cb =
    elim (Bool-cases (not (tid == l.thread_id) || l.calling_pending_functors)) [
      | inl e ↦ rw e (refl, refl, refl, refl)
      | inr e ↦ rw e (refl, refl, refl, refl)
    ]

append_func_in_loop-InOrder :
    (tid : ℕ) (l : EventLoop) (cb : ℕ) → InOrder l → InOrder (append_func_in_loop tid l cb)
append_func_in_loop-InOrder tid l cb i =
    let (g, a, r, w) = append_func_in_loop-fields tid l cb in
    record {
      in_order =
          g
          ∙ push l.given l.ran l.running l.appended cb i.in_order
          ∙ sym (ap₂ ◌++◌ r (ap₂ ◌++◌ w a));
    }

append_all-InOrder :
    (tid : ℕ) (l : EventLoop) (cbs : List ℕ) → InOrder l → InOrder (append_all tid l cbs)
unfolding append_all
append_all-InOrder tid l [] i = i
append_all-InOrder tid l (cb ∷ cbs) i =
    append_all-InOrder tid (append_func_in_loop tid l cb) cbs
      (append_func_in_loop-InOrder tid l cb i)

quit-InOrder : (tid : ℕ) (l : EventLoop) → InOrder l → InOrder (quit tid l)
unfolding quit
quit-InOrder tid l i = elim (Bool-cases (not (tid == l.thread_id))) [
  | inl e ↦ record { in_order = rw e i.in_order }
  | inr e ↦ record { in_order = rw e i.in_order }
]

-- The head of the functors that run.
take_one :
    (g r w a cbs : List ℕ) (cb : ℕ)
    → w ≡ cb ∷ cbs
    → g ≡ r ++ (w ++ a)
    → g ≡ (r ++ cb ∷ []) ++ (cbs ++ a)
take_one g r w a cbs cb e h =
    h ∙ ap (λ x. r ++ (x ++ a)) e ∙ sym (append_assoc r (cb ∷ []) (cbs ++ a))

-- Nothing of a round is left outside it.
abbrev pub Rest : Phase → EventLoop → Type 0
Rest calling l = Unit {0}
Rest _ l = l.running ≡ []

append-Rest :
    (p : Phase) (tid : ℕ) (l : EventLoop) (cb : ℕ)
    → Rest p l
    → Rest p (append_func_in_loop tid l cb)
append-Rest calling tid l cb n = tt
append-Rest polling tid l cb n = (append_func_in_loop-fields tid l cb).3 ∙ n
append-Rest dispatching tid l cb n = (append_func_in_loop-fields tid l cb).3 ∙ n

quit-running : (tid : ℕ) (l : EventLoop) → (quit tid l).running ≡ l.running
unfolding quit
quit-running tid l = ground arith

quit-Rest : (p : Phase) (tid : ℕ) (l : EventLoop) → Rest p l → Rest p (quit tid l)
quit-Rest calling tid l n = tt
quit-Rest polling tid l n = quit-running tid l ∙ n
quit-Rest dispatching tid l n = quit-running tid l ∙ n

module _ (calls : ℕ → List ℕ) where
  run_one-InOrder :
      (l : EventLoop) (cb : ℕ) (cbs : List ℕ)
      → l.running ≡ cb ∷ cbs
      → InOrder l
      → InOrder (run_one calls l cb cbs)
  unfolding run_one
  run_one-InOrder l cb cbs h i =
      append_all-InOrder l.thread_id (record l { running = cbs; ran = l.ran ++ cb ∷ [] }) (calls cb)
        (record { in_order = take_one l.given l.ran l.running l.appended cbs cb h i.in_order })

  Step-InOrder :
      {p q : Phase} {l l' : EventLoop}
      → Step calls p l q l'
      → InOrder l × Rest p l
      → InOrder l' × Rest q l'
  unfolding quit handle_read take_functors end_functors
  Step-InOrder (other_appends p l tid cb h) (i, n) =
      (append_func_in_loop-InOrder tid l cb i, append-Rest p tid l cb n)
  Step-InOrder (other_quits p l tid h) (i, n) = (quit-InOrder tid l i, quit-Rest p tid l n)
  Step-InOrder (poll_returns l) (i, n) = (i, n)
  Step-InOrder (wakeup_read l) (i, n) = (record { in_order = i.in_order }, n)
  Step-InOrder (channel_appends l cb) (i, n) =
      (append_func_in_loop-InOrder l.thread_id l cb i, append-Rest dispatching l.thread_id l cb n)
  Step-InOrder (channel_quits l) (i, n) =
      (quit-InOrder l.thread_id l i, quit-Rest dispatching l.thread_id l n)
  Step-InOrder (takes l) (i, n) = (
    record {
      in_order =
          i.in_order
          ∙ ap (λ x. l.ran ++ (x ++ l.appended)) n
          ∙ ap (◌++◌ l.ran) (sym (append-nil l.appended));
    },
    tt,
  )
  Step-InOrder (runs l cb cbs h) (i, n) = (run_one-InOrder l cb cbs h i, tt)
  Step-InOrder (functor_quits l) (i, n) = (quit-InOrder l.thread_id l i, tt)
  Step-InOrder (ends l h n) (i, _) = (record { in_order = i.in_order }, h)

  Reach-InOrder :
      {p : Phase} {l : EventLoop} {q : Phase} {l' : EventLoop}
      → InOrder l × Rest p l
      → Reach calls p l q l'
      → InOrder l' × Rest q l'
  Reach-InOrder i here = i
  Reach-InOrder i (next r s) = Step-InOrder s (Reach-InOrder i r)

Before-InOrder : {tid : ℕ} {l : EventLoop} → Before tid l → InOrder l × (l.running ≡ [])
unfolding init
Before-InOrder made = (record { in_order = refl }, refl)
Before-InOrder (appends t cb {l = l} b) =
    let (i, n) = Before-InOrder b in
    (append_func_in_loop-InOrder t l cb i, append-Rest polling t l cb n)
Before-InOrder (quits t {l = l} b) =
    let (i, n) = Before-InOrder b in (quit-InOrder t l i, quit-Rest polling t l n)

-- A functor that is handed over, by whatever thread, before `loop` or later, is neither lost nor run twice
-- nor out of turn: at every point of a loop's life from the call of `loop` on, those that were handed over
-- are those that have run, then those of the round under way, then those that wait, in the order in which
-- they came.
pub loop-in_order :
    (calls : ℕ → List ℕ) (tid : ℕ) {p : Phase} {l₀ l l' : EventLoop}
    → Before tid l₀
    → start_loop tid l₀ ≡ some l
    → Reach calls polling l p l'
    → l'.given ≡ l'.ran ++ (l'.running ++ l'.appended)
unfolding start_loop
loop-in_order calls tid {l = l} b h r =
    let (i, n) = Before-InOrder b in
    let o = i.in_order in
    let start : InOrder l × (l.running ≡ []) = (record { in_order = ground arith }, ground arith) in
    (Reach-InOrder calls start r).0.in_order

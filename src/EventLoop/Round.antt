-- ===== src/EventLoop/Round.antt =====
-- `doAppendFunctors`, where no other thread comes between.
use thread_and_net.Prelude.{
  ℕ, ◌≡◌, refl, ap, ◌∙◌, sym, false, List, [], ◌∷◌, ◌++◌, append_assoc, append-nil, Bool-cases, inl,
  inr, not, ◌||◌, ◌==◌,
}
use thread_and_net.EventLoop.{
  EventLoop, append_func_in_loop, append_all, take_functors, end_functors, run_one, run_functors,
  do_append_functors,
}

-- Appending touches only the queue, the list of what was given, and the wake-up.
append_all-appended :
    (tid : ℕ) (l : EventLoop) (cbs : List ℕ)
    → ((append_all tid l cbs).appended ≡ l.appended ++ cbs) × ((append_all tid l cbs).ran ≡ l.ran)
unfolding append_all append_func_in_loop
append_all-appended tid l [] = (sym (append-nil l.appended), refl)
append_all-appended tid l (cb ∷ cbs) =
    let (a, b) = append_all-appended tid (append_func_in_loop tid l cb) cbs in
    elim (Bool-cases (not (tid == l.thread_id) || l.calling_pending_functors)) [
      | inl e ↦ (
        a ∙ ap (λ x. x ++ cbs) (rw e refl) ∙ append_assoc l.appended (cb ∷ []) cbs,
        b ∙ rw e refl,
      )
      | inr e ↦ (
        a ∙ ap (λ x. x ++ cbs) (rw e refl) ∙ append_assoc l.appended (cb ∷ []) cbs,
        b ∙ rw e refl,
      )
    ]

-- What functors append, in turn
unfoldable pub all_calls : (ℕ → List ℕ) → List ℕ → List ℕ
all_calls calls [] = []
all_calls calls (cb ∷ cbs) = calls cb ++ all_calls calls cbs

run_functors-ran :
    (calls : ℕ → List ℕ) (l : EventLoop) (cbs : List ℕ)
    → ((run_functors calls l cbs).ran ≡ l.ran ++ cbs)
      × ((run_functors calls l cbs).appended ≡ l.appended ++ all_calls calls cbs)
unfolding run_functors run_one all_calls
run_functors-ran calls l [] = (sym (append-nil l.ran), sym (append-nil l.appended))
run_functors-ran calls l (cb ∷ cbs) =
    let (a, b) =
      append_all-appended l.thread_id (record l { running = cbs; ran = l.ran ++ cb ∷ [] })
        (calls cb) in
    let (r, q) = run_functors-ran calls (run_one calls l cb cbs) cbs in
    (
      r ∙ ap (λ x. x ++ cbs) b ∙ append_assoc l.ran (cb ∷ []) cbs,
      q
          ∙ ap (λ x. x ++ all_calls calls cbs) a
          ∙ append_assoc l.appended (calls cb) (all_calls calls cbs),
    )

-- A round of `doAppendFunctors` runs just the functors that waited when it began, in order; those
-- that they append wait, in order, for the next round, so that a round ends.
pub do_append_functors_lem :
    (calls : ℕ → List ℕ) (l : EventLoop)
    → ((do_append_functors calls l).ran ≡ l.ran ++ l.appended)
      × ((do_append_functors calls l).appended ≡ all_calls calls l.appended)
      × ((do_append_functors calls l).calling_pending_functors ≡ false)
unfolding do_append_functors take_functors end_functors
do_append_functors_lem calls l =
    let (r, q) = run_functors-ran calls (take_functors l) l.appended in (r, q, refl)

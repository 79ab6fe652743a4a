-- ===== src/ThreadPool/Bounded.antt =====
-- The queue of tasks keeps to its bound and its order.
use thread_and_net.Prelude.{
  ℕ, suc, ◌≡◌, ◌≤◌, refl, ap, sym, ◌∙◌, List, [], ◌∷◌, ◌++◌, arith, some, Option, length,
  append_assoc, ltb, Bool-cases, inl, inr, subst,
}
use thread_and_net.ThreadPool.{
  ThreadPool, Step, adds, takes, stops, Reach, here, next, init, start, add_task, take_task, stop,
}

record Inv (p : ThreadPool) : Type 0 where
  bound : length p.b_queue ≤ p.size_queue
  in_order : p.added ≡ p.taken ++ p.b_queue

length_push : (xs : List ℕ) (x : ℕ) → length (xs ++ x ∷ []) ≡ suc (length xs)
length_push [] x = refl
length_push (y ∷ xs) x = ap suc (length_push xs x)

add_task-Inv : (p p' : ThreadPool) (t : ℕ) → Inv p → add_task p t ≡ some p' → Inv p'
unfolding add_task
add_task-Inv p p' t i h = elim (Bool-cases (ltb (length p.b_queue) p.size_queue)) [
  | inl e ↦
      let q : ThreadPool = record p { b_queue = p.b_queue ++ t ∷ []; added = p.added ++ t ∷ [] } in
      let same : some q ≡ some p' = sym (rw e refl) ∙ h in
      let eq : q ≡ p' = cc in
      subst Inv eq (record {
        bound = ground (arith, length_push p.b_queue t);
        in_order = ap (λ x. x ++ t ∷ []) i.in_order ∙ append_assoc p.taken p.b_queue (t ∷ []);
      })
  | inr e ↦ absurd (ground arith)
]

take_task-Inv : (p p' : ThreadPool) (t : Option ℕ) → Inv p → take_task p ≡ some (t, p') → Inv p'
unfolding take_task
take_task-Inv p p' t i h = from p.b_queue refl
  where
    from : (ts : List ℕ) → p.b_queue ≡ ts → Inv p'
    from [] e = elim (Bool-cases p.is_start) [
      | inl on ↦ absurd (ground arith)
      | inr off ↦ let eq : p ≡ p' = ground arith in subst Inv eq i
    ]
    from (x ∷ ts) e =
        let q : ThreadPool = record p { b_queue = ts; taken = p.taken ++ x ∷ [] } in
        let eq : q ≡ p' = ground arith in
        subst Inv eq (record {
          bound = ground (arith, ap length e);
          in_order = i.in_order ∙ ap (◌++◌ p.taken) e ∙ sym (append_assoc p.taken (x ∷ []) ts);
        })

Step-Inv : {p p' : ThreadPool} → Step p p' → Inv p → Inv p'
unfolding stop
Step-Inv (adds p p' t h) i = add_task-Inv p p' t i h
Step-Inv (takes p p' t h) i = take_task-Inv p p' t i h
Step-Inv (stops p) i = record { bound = ground arith; in_order = ground arith }

Reach-Inv : {p q : ThreadPool} → Inv p → Reach p q → Inv q
Reach-Inv i here = i
Reach-Inv i (next r s) = Step-Inv s (Reach-Inv i r)

-- From the start of a new pool on, until `stop` clears the queue, and whatever its threads do, with one
-- step for each critical section: the queue never holds more than `size_queue_` tasks, and the tasks that were added are those that were
-- taken, then those that wait, in the order in which they were added.
pub Reach-bounded :
    (size_queue size_thread : ℕ) {p : ThreadPool}
    → Reach (start init size_queue size_thread) p
    → (length p.b_queue ≤ p.size_queue) × (p.added ≡ p.taken ++ p.b_queue)
unfolding start init
Reach-bounded size_queue size_thread r =
    let i = Reach-Inv (record { bound = omega arith; in_order = refl }) r in (i.bound, i.in_order)

-- ===== src/TimeQueue/Armed.antt =====
-- The timerfd over a queue's whole life.
use thread_and_net.Prelude.{
  some-inj, ℕ, ◌+◌, ◌*◌, ◌⊎◌, ◌≡◌, ◌<◌, ◌≤◌, inl, inr, subst, sym, ◌∙◌, List, [], ◌∷◌, Option, some,
  none, arith,
}
use thread_and_net.Timestamp.{how_much_time_from_now}
use thread_and_net.Timestamp.Delay.{nanos, how_much_time_from_now_lem}
use thread_and_net.TimeQueue.{TimeQueue, Entry, Request, uintptr_max, add_timer, handle_read, init}
use thread_and_net.TimeQueue.Inv.{All, Before, IsSorted, ArmedFor, Wf}
use thread_and_net.TimeQueue.Expire.{due}
use thread_and_net.TimeQueue.Reset.{Has}
use thread_and_net.TimeQueue.Add.{Fresh, add_timer_lem}
use thread_and_net.TimeQueue.Run.{requests}
use thread_and_net.TimeQueue.Handle.{handle_read_lem}

-- The calls on a queue, at whatever times: a timer is added, or the timerfd is readable. What the callbacks
-- add, `calls`, may be something else each time.
pub data Step : TimeQueue → TimeQueue → Type 0 where
  adds :
      (q q' : TimeQueue) (r : Request)
      → q.heap r.ptr ≡ none
      → r.ptr < uintptr_max
      → add_timer q r ≡ some q'
      → Step q q'
  fires :
      (calls : ℕ → List Request) (q q' : TimeQueue) (now : ℕ)
      → Fresh q.heap (requests calls q.heap (due now q.timers))
      → handle_read calls q now ≡ some q'
      → Step q q'

pub data Reach (q : TimeQueue) : TimeQueue → Type 0 where
  here : Reach q q
  next : {r s : TimeQueue} → Reach q r → Step r s → Reach q s

Step-Wf : {q q' : TimeQueue} → Step q q' → Wf q → Wf q'
Step-Wf (adds q q' r free small h) w =
    let (t, h', g, _) = add_timer_lem q r w free small in subst Wf (some-inj (sym h' ∙ h)) g.wf
Step-Wf (fires calls q q' now f h) w =
    let (t, h', g, _, _, _) = handle_read_lem calls q now w f in subst Wf (some-inj (sym h' ∙ h)) g

Reach-Wf : {q q' : TimeQueue} → Wf q → Reach q q' → Wf q'
Reach-Wf w here = w
Reach-Wf w (next r s) = Step-Wf s (Reach-Wf w r)

init-Wf : Wf init
unfolding init
init-Wf = record { sorted = tt; apart = tt; owned = tt; armed_for = tt }

armed_before :
    (armed : Option ℕ) (xs : List Entry) (d : Entry)
    → IsSorted xs
    → ArmedFor armed xs
    → Has d xs
    → (t : ℕ) × (armed ≡ some t) × (t ≤ d.when)
armed_before armed [] d s a h = absurd h
armed_before armed (x ∷ xs) d s (t, e, le) (inl same) =
    (t, e, subst (λ (y : Entry). t ≤ y.when) same le)
armed_before armed (x ∷ xs) d s (t, e, le) (inr h) = (t, e, first xs (λ y b. ground arith) s.0 h)
  where
    first :
        (ys : List Entry)
        → ((y : Entry) → Before x y → t ≤ y.when)
        → All (Before x) ys
        → Has d ys
        → t ≤ d.when
    first [] f b h = absurd h
    first (y ∷ ys) f b (inl e) = subst (λ (z : Entry). t ≤ z.when) e (f y b.0)
    first (y ∷ ys) f b (inr h) = first ys f b.1 h

-- No timer is forgotten: in every state that a queue reaches from its construction by adding
-- timers, at addresses that are not in use, and by timer events, the last time `t` that
-- `resetTimerfd` was given is no later than the time of any timer in the set; and the delay that it
-- makes of `t`, at whatever time `now`, ends no later than that timer, or is 100 microseconds.
pub Reach-armed :
    (now : ℕ) {q : TimeQueue} (d : Entry)
    → Reach init q
    → Has d q.timers
    → (t : ℕ) × (q.requested ≡ some t)
      × (t ≤ d.when)
      × ((now * 1000 + nanos (how_much_time_from_now t now) ≤ d.when * 1000)
          ⊎ (nanos (how_much_time_from_now t now) ≡ 100_000))
Reach-armed now {q} d r h =
    let w = Reach-Wf init-Wf r in
    let (t, e, le) = armed_before q.requested q.timers d w.sorted w.armed_for h in
    (
      t,
      e,
      le,
      elim (how_much_time_from_now_lem t now).3 [
        | inl least ↦ inr least
        | inr exact ↦ inl (omega arith)
      ],
    )

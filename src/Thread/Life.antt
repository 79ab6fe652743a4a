-- ===== src/Thread/Life.antt =====
-- A thread from its constructor to its destructor.
use thread_and_net.Prelude.{◌≡◌, refl, arith, Bool, true, false}
use thread_and_net.Thread.{
  Thread, Status, absent, joinable, joined, invalid, init, pthread_join, pthread_detach, start,
  join, destroy, Step, starts, joins, Reach, here, next,
}

-- The status that the members tell
abbrev expected : Bool → Bool → Status
expected false _ = absent
expected true false = joinable
expected true true = joined

-- What becomes of it in the destructor
abbrev pub at_end : Bool → Bool → Status
at_end false _ = absent
at_end true false = joinable
at_end true true = invalid

record Inv (t : Thread) : Type 0 where
  status : t.status ≡ expected t.is_start t.is_join
  order : t.is_start ≡ false → t.is_join ≡ false

Step-Inv : {t u : Thread} → Step t u → Inv t → Inv u
unfolding start join pthread_join
Step-Inv (starts makes h) i = record { status = ground arith; order = ground arith }
Step-Inv (joins h) i = record { status = ground arith; order = ground arith }

Reach-Inv : {t u : Thread} → Inv t → Reach t u → Inv u
Reach-Inv i here = i
Reach-Inv i (next r s) = Step-Inv s (Reach-Inv i r)

-- Whatever calls of `start` and `join` a Thread has been through, its destructor leaves a thread that was
-- started and not joined as it is, neither joined nor detached, and detaches just one that
-- has been joined, which is no longer valid.
pub destroy-at_end : {t : Thread} → Reach init t → (destroy t).status ≡ at_end t.is_start t.is_join
unfolding init destroy pthread_detach
destroy-at_end r =
    let i = Reach-Inv (record { status = refl; order = λ e. refl }) r in
    ground (arith, i.status, i.order)

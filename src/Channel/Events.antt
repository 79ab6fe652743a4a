-- ===== src/Channel/Events.antt =====
-- The event masks: every mask that the operations reach is one of four, and on those each operation
-- changes just the interest that it names.
use thread_and_net.Prelude.{◌≡◌, refl, ap, ◌∙◌, Bool, true, false, List, [], ◌∷◌, ℕ}
use thread_and_net.Channel.{
  Interest, interest, enable_reading, disable_reading, enable_writeing, disable_writeing,
  disable_all, has, read_event, write_event,
}

-- The interest in reading and in writing, told apart.
unfoldable pub mask : Bool → Bool → ℕ
mask false false = 0
mask true false = 3
mask false true = 4
mask true true = 7

-- What each operation means.
unfoldable pub wants : Interest → Bool → Bool → Bool × Bool
wants enable_reading r w = (true, w)
wants disable_reading r w = (false, w)
wants enable_writeing r w = (r, true)
wants disable_writeing r w = (r, false)
wants disable_all r w = (false, false)

pub run : List Interest → ℕ → ℕ
run [] e = e
run (i ∷ is) e = run is (interest i e)

pub run_wants : List Interest → Bool → Bool → Bool × Bool
run_wants [] r w = (r, w)
run_wants (i ∷ is) r w = let (r', w') = wants i r w in run_wants is r' w'

pub interest-mask :
    (i : Interest) (r w : Bool) → interest i (mask r w) ≡ mask (wants i r w).0 (wants i r w).1
unfolding interest mask wants
interest-mask enable_reading false false = refl
interest-mask enable_reading true false = refl
interest-mask enable_reading false true = refl
interest-mask enable_reading true true = refl
interest-mask disable_reading false false = refl
interest-mask disable_reading true false = refl
interest-mask disable_reading false true = refl
interest-mask disable_reading true true = refl
interest-mask enable_writeing false false = refl
interest-mask enable_writeing true false = refl
interest-mask enable_writeing false true = refl
interest-mask enable_writeing true true = refl
interest-mask disable_writeing false false = refl
interest-mask disable_writeing true false = refl
interest-mask disable_writeing false true = refl
interest-mask disable_writeing true true = refl
interest-mask disable_all r w = refl

pub has-mask : (r w : Bool) → (has (mask r w) read_event ≡ r) × (has (mask r w) write_event ≡ w)
unfolding mask
has-mask false false = (refl, refl)
has-mask true false = (refl, refl)
has-mask false true = (refl, refl)
has-mask true true = (refl, refl)

run-mask :
    (is : List Interest) (r w : Bool)
    → run is (mask r w) ≡ mask (run_wants is r w).0 (run_wants is r w).1
unfolding run run_wants
run-mask [] r w = refl
run-mask (i ∷ is) r w =
    ap (run is) (interest-mask i r w) ∙ run-mask is (wants i r w).0 (wants i r w).1

-- Whatever operations a new channel has been through, `isReading` and `isWriteing` tell what the
-- operations asked for last.
pub run-wants :
    (is : List Interest)
    → (has (run is 0) read_event ≡ (run_wants is false false).0)
      × (has (run is 0) write_event ≡ (run_wants is false false).1)
unfolding mask
run-wants is =
    let e = run-mask is false false in
    let h = has-mask (run_wants is false false).0 (run_wants is false false).1 in
    (ap (λ m. has m read_event) e ∙ h.0, ap (λ m. has m write_event) e ∙ h.1)

-- ===== src/TimeQueue/Handle.antt =====
-- `handleRead`: the whole round of a timer event.
use thread_and_net.Prelude.{ℕ, ◌≡◌, ◌∙◌, List, [], ◌∷◌, ◌++◌, Option, some}
use thread_and_net.TimeQueue.{TimeQueue, TimerInfo, Entry, Request, handle_read}
use thread_and_net.TimeQueue.Inv.{All, Without, Wf, All-mono}
use thread_and_net.TimeQueue.Expire.{
  due, later, get_all_expired_timers_lem, All-due, due-Apart, due-Without-later,
}
use thread_and_net.TimeQueue.Reset.{Live, Live-frame, Has, Settles, reset-Settled}
use thread_and_net.TimeQueue.Add.{Fresh}
use thread_and_net.TimeQueue.Run.{Ran, requests, callbacks, Live-Fresh, run_all-Ran}

Settles-frame :
    (now : ℕ) (h h' : ℕ → Option TimerInfo) (q' : TimeQueue) (xs : List Entry)
    → All (λ x. h' x.ptr ≡ h x.ptr) xs
    → All (Settles now h' q') xs
    → All (Settles now h q') xs
Settles-frame now h h' q' [] s a = tt
Settles-frame now h h' q' (x ∷ xs) s a =
    ((λ i e. a.0 i (s.0 ∙ e)), Settles-frame now h h' q' xs s.1 a.1)

module _ (calls : ℕ → List Request) where
  -- The callbacks put none of the timers that were due back into the set.
  outs :
      (q₁ q₂ : TimeQueue) (es xs : List Entry)
      → Ran calls q₁ q₂ es
      → Fresh q₁.heap (requests calls q₁.heap es)
      → All (Live q₁.heap) xs
      → All (λ x. Without x.ptr q₁.timers) xs
      → All (λ x. Without x.ptr q₂.timers) xs
  outs q₁ q₂ es [] r f l o = tt
  outs q₁ q₂ es (x ∷ xs) r f l o = (
    r.without x.ptr (Live-Fresh calls q₁.heap x (requests calls q₁.heap es) l.0 f) o.0,
    outs q₁ q₂ es xs r f l.1 o.1,
  )

  -- A timer event runs through: no assert fails, and no freed timer is touched. It runs the
  -- callbacks of just the timers that are due, in order of time, and each once; it sets those that
  -- repeat again and frees the others; and it loses no timer that is not due. Its hypothesis is
  -- that the callbacks' new timers get addresses that are not in use.
  pub handle_read_lem :
      (q : TimeQueue) (now : ℕ)
      → Wf q
      → Fresh q.heap (requests calls q.heap (due now q.timers))
      → (q' : TimeQueue) × (handle_read calls q now ≡ some q')
        × Wf q'
        × (q'.ran ≡ q.ran ++ callbacks calls q.heap (due now q.timers))
        × All (Settles now q.heap q') (due now q.timers)
        × ((d : Entry) → Has d (later now q.timers) → Has d q'.timers)
  unfolding handle_read
  handle_read_lem q now w f =
      let es = due now q.timers in
      let (h₁, w₁) = get_all_expired_timers_lem q now w in
      let q₁ : TimeQueue = record q { timers = later now q.timers } in
      let live =
        All-due (Live q.heap) now q.timers (All-mono q.timers (λ e o. (o.0, o.1, o.3)) w.owned) in
      let (q₂, h₂, r) = run_all-Ran calls q₁ es w₁ live f in
      let same =
        All-mono es
          (λ e l. r.frame e.ptr (Live-Fresh calls q.heap e (requests calls q.heap es) l f)) live in
      let (q₃, h₃, s) = reset-Settled q₂ es now (record {
        wf = r.wf;
        live = Live-frame q.heap q₂.heap es same live;
        apart = due-Apart now q.timers w.apart;
        out = outs q₁ q₂ es es r f live (due-Without-later now q.timers w.apart);
      }) in
      (
        q₃,
        rw h₁ (rw h₂ h₃),
        s.wf,
        s.log ∙ r.log,
        Settles-frame now q.heap q₂.heap q₃ es same s.settled,
        λ d x. s.keeps d (r.keeps d x),
      )

-- ===== src/TimeQueue/Run.antt =====
-- The callbacks of the timers that are due, run in turn.
use thread_and_net.Prelude.{
  ℕ, ◌≡◌, ◌≢◌, refl, sym, ◌∙◌, ap, ap₂, subst, Option, some, none, List, [], ◌∷◌, ◌++◌, arith,
  append_assoc, append-nil,
}
use thread_and_net.TimeQueue.{TimeQueue, TimerInfo, Entry, Request, run_all}
use thread_and_net.TimeQueue.Inv.{All, Without, Wf, All-mono}
use thread_and_net.TimeQueue.Reset.{Live, Live-frame, Has}
use thread_and_net.TimeQueue.Add.{Fresh, Fresh-append, Fresh-frame, ptrs, add_timers-Grown}

module _ (calls : ℕ → List Request) where
  -- The callbacks of the entries' timers, and the requests that they make.
  abbrev pub callback_of : Option TimerInfo → List ℕ
  callback_of none = []
  callback_of (some i) = i.callback ∷ []

  abbrev pub requests_of : Option TimerInfo → List Request
  requests_of none = []
  requests_of (some i) = calls i.callback

  abbrev pub callbacks : (ℕ → Option TimerInfo) → List Entry → List ℕ
  callbacks h [] = []
  callbacks h (e ∷ es) = callback_of (h e.ptr) ++ callbacks h es

  abbrev pub requests : (ℕ → Option TimerInfo) → List Entry → List Request
  requests h [] = []
  requests h (e ∷ es) = requests_of (h e.ptr) ++ requests h es

  pub record Ran (q q' : TimeQueue) (es : List Entry) : Type 0 where
    pub wf : Wf q'
    pub frame : (p : ℕ) → All (λ x. x ≢ p) (ptrs (requests q.heap es)) → q'.heap p ≡ q.heap p
    pub without :
        (p : ℕ)
        → All (λ x. x ≢ p) (ptrs (requests q.heap es))
        → Without p q.timers
        → Without p q'.timers
    pub keeps : (d : Entry) → Has d q.timers → Has d q'.timers
    pub log : q'.ran ≡ q.ran ++ callbacks q.heap es

  requests_frame :
      (h h' : ℕ → Option TimerInfo) (es : List Entry)
      → All (λ e. h' e.ptr ≡ h e.ptr) es
      → (requests h' es ≡ requests h es) × (callbacks h' es ≡ callbacks h es)
  requests_frame h h' [] s = (refl, refl)
  requests_frame h h' (e ∷ es) s =
      let (r, c) = requests_frame h h' es s.1 in
      (ap₂ ◌++◌ (ap requests_of s.0) r, ap₂ ◌++◌ (ap callback_of s.0) c)

  ptrs-split :
      (p : ℕ) (xs ys : List Request)
      → All (λ x. x ≢ p) (ptrs (xs ++ ys))
      → All (λ x. x ≢ p) (ptrs xs) × All (λ x. x ≢ p) (ptrs ys)
  ptrs-split p [] ys h = (tt, h)
  ptrs-split p (x ∷ xs) ys h = let (u, v) = ptrs-split p xs ys h.1 in ((h.0, u), v)

  -- An allocated timer is at no fresh address.
  pub Live-Fresh :
      (h : ℕ → Option TimerInfo) (e : Entry) (rs : List Request)
      → Live h e
      → Fresh h rs
      → All (λ x. x ≢ e.ptr) (ptrs rs)
  Live-Fresh h e [] l f = tt
  Live-Fresh h e (r ∷ rs) (i, at, small) f =
      ((λ x. ground (arith, f.0, ap h x)), Live-Fresh h e rs (i, at, small) f.3)

  pub run_all-Ran :
      (q : TimeQueue) (es : List Entry)
      → Wf q
      → All (Live q.heap) es
      → Fresh q.heap (requests q.heap es)
      → (q' : TimeQueue) × (run_all calls q es ≡ some q') × Ran q q' es
  unfolding run_all
  run_all-Ran q [] w l f = (
    q,
    refl,
    record {
      wf = w;
      frame = λ p n. refl;
      without = λ p n h. h;
      keeps = λ d h. h;
      log = sym (append-nil q.ran);
    },
  )
  run_all-Ran q (e ∷ es) w l f =
      let (i, at, small) = l.0 in
      let here : requests_of (q.heap e.ptr) ≡ calls i.callback = ap requests_of at in
      let f' : Fresh q.heap (calls i.callback ++ requests q.heap es) =
        subst (λ rs. Fresh q.heap (rs ++ requests q.heap es)) here f in
      let (fa, fb, cross) = Fresh-append q.heap (calls i.callback) (requests q.heap es) f' in
      let q₁ : TimeQueue = record q { ran = q.ran ++ i.callback ∷ [] } in
      let w₁ : Wf q₁ = record {
        sorted = w.sorted;
        apart = w.apart;
        owned = w.owned;
        armed_for = w.armed_for;
      } in
      let (q₂, h₂, g₂) = add_timers-Grown q₁ (calls i.callback) w₁ fa in
      let kept =
        All-mono es (λ x lx. g₂.frame x.ptr (Live-Fresh q.heap x (calls i.callback) lx fa)) l.1 in
      let (rs, cs) = requests_frame q.heap q₂.heap es kept in
      let live₂ = Live-frame q.heap q₂.heap es kept l.1 in
      let fresh₂ =
        Fresh-frame q.heap q₂.heap (requests q.heap es)
          (All-mono (requests q.heap es) (λ r c. g₂.frame r.ptr c) cross) fb in
      let (q₃, h₃, g₃) = run_all-Ran q₂ es g₂.wf live₂ (subst (Fresh q₂.heap) (sym rs) fresh₂) in
      (
        q₃,
        rw at (rw h₂ h₃),
        record {
          wf = g₃.wf;
          frame = λ p n.
              let (na, nb) =
                ptrs-split p (calls i.callback) (requests q.heap es)
                  (subst (λ t. All (λ x. x ≢ p) (ptrs (t ++ requests q.heap es))) here n) in
              g₃.frame p (subst (λ t. All (λ x. x ≢ p) (ptrs t)) (sym rs) nb) ∙ g₂.frame p na;
          without = λ p n x.
              let (na, nb) =
                ptrs-split p (calls i.callback) (requests q.heap es)
                  (subst (λ t. All (λ x. x ≢ p) (ptrs (t ++ requests q.heap es))) here n) in
              g₃.without p (subst (λ t. All (λ x. x ≢ p) (ptrs t)) (sym rs) nb) (g₂.without p na x);
          keeps = λ d x. g₃.keeps d (g₂.keeps d x);
          log =
              g₃.log
              ∙ ap₂ ◌++◌ g₂.log cs
              ∙ append_assoc q.ran (i.callback ∷ []) (callbacks q.heap es)
              ∙ ap (λ t. q.ran ++ (callback_of t ++ callbacks q.heap es)) (sym at);
        },
      )

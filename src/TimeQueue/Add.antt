-- ===== src/TimeQueue/Add.antt =====
-- `addTimer`, alone and in turn.
use thread_and_net.Prelude.{
  ℕ, ◌≡◌, ◌≢◌, ◌<◌, ◌+◌, refl, sym, ◌∙◌, ap, Option, some, none, List, [], ◌∷◌, ◌++◌, arith, update,
  update_self, update_ne,
}
use thread_and_net.TimeQueue.{
  TimeQueue, TimerInfo, Entry, Request, create_info, uintptr_max, schedule, add_timer, add_timers,
}
use thread_and_net.TimeQueue.Inv.{All, Without, Owned, Wf, All-mono}
use thread_and_net.TimeQueue.Insert.{All-insert, schedule-Wf}
use thread_and_net.TimeQueue.Reset.{Has, store-Wf, Has-insert, Has-insert_old}

-- The entries of a set whose timers are allocated are not at an address that is not.
Owned-Without :
    (heap : ℕ → Option TimerInfo) (p : ℕ) (xs : List Entry)
    → heap p ≡ none
    → All (Owned heap) xs
    → Without p xs
Owned-Without heap p [] free o = tt
Owned-Without heap p (x ∷ xs) free o =
    let (i, h, _, _) = o.0 in (λ e. ground (arith, h, ap heap e), Owned-Without heap p xs free o.1)

pub record Grown (q q' : TimeQueue) (ptrs : List ℕ) : Type 0 where
  pub wf : Wf q'
  pub frame : (p : ℕ) → All (λ x. x ≢ p) ptrs → q'.heap p ≡ q.heap p
  pub without : (p : ℕ) → All (λ x. x ≢ p) ptrs → Without p q.timers → Without p q'.timers
  pub keeps : (d : Entry) → Has d q.timers → Has d q'.timers
  pub log : q'.ran ≡ q.ran

-- A timer at a fresh address is added under the invariant, and is in the set at its time.
pub add_timer_lem :
    (q : TimeQueue) (r : Request)
    → Wf q
    → q.heap r.ptr ≡ none
    → r.ptr < uintptr_max
    → (q' : TimeQueue) × (add_timer q r ≡ some q')
      × Grown q q' (r.ptr ∷ [])
      × Has (record { when = r.when; ptr = r.ptr }) q'.timers
unfolding add_timer
add_timer_lem q r w free small =
    let info : TimerInfo = create_info r (q.num_created + 1) in
    let e : Entry = record { when = r.when; ptr = r.ptr } in
    let s : TimeQueue = record q {
      heap = update q.heap r.ptr (some info);
      num_created = q.num_created + 1;
    } in
    let n = Owned-Without q.heap r.ptr q.timers free w.owned in
    let ws = store-Wf q r.ptr (some info) w n in
    (
      schedule s e,
      rw (update_self q.heap r.ptr (some info)) refl,
      record {
        wf =
            schedule-Wf s e
              (record {
                sorted = ws.sorted;
                apart = ws.apart;
                owned = ws.owned;
                armed_for = ws.armed_for;
              })
              (info, update_self q.heap r.ptr (some info), refl, small) n;
        frame = λ p ne. unfold schedule in update_ne q.heap r.ptr p (some info) (λ x. ne.0 (sym x));
        without = λ p ne h. unfold schedule in All-insert (λ x. x.ptr ≢ p) e q.timers ne.0 h;
        keeps = λ d h. unfold schedule in Has-insert_old e d q.timers h;
        log = unfold schedule in refl;
      },
      unfold schedule in Has-insert e q.timers n,
    )

abbrev pub ptrs : List Request → List ℕ
ptrs [] = []
ptrs (r ∷ rs) = r.ptr ∷ ptrs rs

-- `new` returns addresses that are not in use, and never the same twice.
abbrev pub Fresh : (ℕ → Option TimerInfo) → List Request → Type 0
Fresh heap [] = Unit {0}
Fresh heap (r ∷ rs) =
    (heap r.ptr ≡ none) × (r.ptr < uintptr_max) × All (λ x. x.ptr ≢ r.ptr) rs × Fresh heap rs

pub Fresh-frame :
    (h h' : ℕ → Option TimerInfo) (rs : List Request)
    → All (λ r. h' r.ptr ≡ h r.ptr) rs
    → Fresh h rs
    → Fresh h' rs
Fresh-frame h h' [] e f = tt
Fresh-frame h h' (r ∷ rs) e f = (e.0 ∙ f.0, f.1, f.2, Fresh-frame h h' rs e.1 f.3)

pub add_timers-Grown :
    (q : TimeQueue) (rs : List Request)
    → Wf q
    → Fresh q.heap rs
    → (q' : TimeQueue) × (add_timers q rs ≡ some q') × Grown q q' (ptrs rs)
unfolding add_timers
add_timers-Grown q [] w f = (
  q,
  refl,
  record { wf = w; frame = λ p h. refl; without = λ p n h. h; keeps = λ d h. h; log = refl },
)
add_timers-Grown q (r ∷ rs) w f =
    let (q', h, g, _) = add_timer_lem q r w f.0 f.1 in
    let same = All-mono rs (λ x ne. g.frame x.ptr ((λ y. ne (sym y)), tt)) f.2 in
    let (q'', h', g') = add_timers-Grown q' rs g.wf (Fresh-frame q.heap q'.heap rs same f.3) in
    (
      q'',
      rw h h',
      record {
        wf = g'.wf;
        frame = λ p n. g'.frame p n.1 ∙ g.frame p (n.0, tt);
        without = λ p n x. g'.without p n.1 (g.without p (n.0, tt) x);
        keeps = λ d x. g'.keeps d (g.keeps d x);
        log = g'.log ∙ g.log;
      },
    )

pub Fresh-append :
    (h : ℕ → Option TimerInfo) (cs bs : List Request)
    → Fresh h (cs ++ bs)
    → Fresh h cs × Fresh h bs × All (λ b. All (λ p. p ≢ b.ptr) (ptrs cs)) bs
Fresh-append h [] bs f = (tt, f, nil bs)
  where
    nil : (bs : List Request) → All (λ (b : Request). Unit {0}) bs
    nil [] = tt
    nil (b ∷ bs) = (tt, nil bs)
Fresh-append h (a ∷ cs) bs f =
    let (fa, fb, cross) = Fresh-append h cs bs f.3 in
    let (na, nb) = All-split cs bs f.2 in ((f.0, f.1, na, fa), fb, both bs nb cross)
  where
    All-split :
        (xs ys : List Request)
        → All (λ x. x.ptr ≢ a.ptr) (xs ++ ys)
        → All (λ x. x.ptr ≢ a.ptr) xs × All (λ x. x.ptr ≢ a.ptr) ys
    All-split [] ys h = (tt, h)
    All-split (x ∷ xs) ys h = let (u, v) = All-split xs ys h.1 in ((h.0, u), v)

    both :
        (ys : List Request)
        → All (λ x. x.ptr ≢ a.ptr) ys
        → All (λ b. All (λ p. p ≢ b.ptr) (ptrs cs)) ys
        → All (λ b. All (λ p. p ≢ b.ptr) (a.ptr ∷ ptrs cs)) ys
    both [] u v = tt
    both (y ∷ ys) u v = (((λ e. u.0 (sym e)), v.0), both ys u.1 v.1)

-- ===== src/EventLoop.antt =====
-- ThreadAndNetWorkCoding/zdq_event_loop.h and zdq_event_loop.cpp: the functors that threads hand to
-- an event loop, and how the loop is woken for them. `appended` is `appendFunctors_`, `running` the
-- rest of the local vector of `doAppendFunctors`, and `woken` tells that the wake-up descriptor has
-- been written since it was last read, so that poll(2) returns at once. `given` and `ran` list the
-- functors that were appended and those that were run. A functor is a name; what it does is a
-- parameter, `calls`: the functors that it appends itself.
pub mod Order
pub mod Wake
pub mod Halves
pub mod Round
pub mod Timers
pub mod Examples
use thread_and_net.Prelude.{
  ℕ, Bool, true, false, not, ◌||◌, ◌==◌, ◌≡◌, Option, none, some, List, [], ◌∷◌, ◌++◌,
  if◌then◌else◌, ◌>>=◌, ◌>>◌, assert,
}

pub record EventLoop : Type 0 where
  pub thread_id : ℕ
  pub looping : Bool
  pub quit : Bool
  pub appended : List ℕ
  pub calling_pending_functors : Bool
  pub running : List ℕ
  pub woken : Bool
  pub given : List ℕ
  pub ran : List ℕ

-- The constructor, in thread `tid`
unfoldable pub init : ℕ → EventLoop
init tid = record {
  thread_id = tid;
  looping = false;
  quit = false;
  appended = [];
  calling_pending_functors = false;
  running = [];
  woken = false;
  given = [];
  ran = [];
}

-- `isInLoopThread`
abbrev pub is_in_loop_thread : ℕ → EventLoop → Bool
is_in_loop_thread tid l = tid == l.thread_id

-- `weakFd(wakeupFd_)`
abbrev pub wake_fd : EventLoop → EventLoop
wake_fd l = record l { woken = true }

-- `handleRead(wakeupFd_)`
pub handle_read : EventLoop → EventLoop
handle_read l = record l { woken = false }

-- `appendFuncInLoop`, from thread `tid`
pub append_func_in_loop : ℕ → EventLoop → ℕ → EventLoop
append_func_in_loop tid l cb =
    let l' : EventLoop = record l {
      appended = l.appended ++ cb ∷ [];
      given = l.given ++ cb ∷ [];
    } in
    if not (is_in_loop_thread tid l) || l.calling_pending_functors then wake_fd l' else l'

pub append_all : ℕ → EventLoop → List ℕ → EventLoop
unfolding append_func_in_loop
append_all tid l [] = l
append_all tid l (cb ∷ cbs) = append_all tid (append_func_in_loop tid l cb) cbs

-- `quit`, from thread `tid`
pub quit : ℕ → EventLoop → EventLoop
quit tid l =
    let l' : EventLoop = record l { quit = true } in
    if not (is_in_loop_thread tid l) then wake_fd l' else l'

-- A loop before `loop`, where any thread may call it; `poll` and the functors come later.
pub data Before (tid : ℕ) : EventLoop → Type 0 where
  made : Before tid (init tid)
  appends : (t cb : ℕ) {l : EventLoop} → Before tid l → Before tid (append_func_in_loop t l cb)
  quits : (t : ℕ) {l : EventLoop} → Before tid l → Before tid (quit t l)

-- The head of `loop`, from thread `tid`
pub start_loop : ℕ → EventLoop → Option EventLoop
start_loop tid l = do
  assert (not l.looping)
  assert (is_in_loop_thread tid l)
  some (record l { looping = true; quit = false })

-- `doAppendFunctors`, up to the end of its critical section
pub take_functors : EventLoop → EventLoop
take_functors l = record l { calling_pending_functors = true; running = l.appended; appended = [] }

-- Its end
pub end_functors : EventLoop → EventLoop
end_functors l = record l { calling_pending_functors = false }

-- The places in `loop` where other threads may come between: waiting in poll(2), before the
-- functors are taken, and while they run.
pub data Phase : Type 0 where
  polling dispatching calling : Phase

module _ (calls : ℕ → List ℕ) where
  -- One round of `for(auto & elem : functors) elem();`
  pub run_one : EventLoop → ℕ → List ℕ → EventLoop
  unfolding append_all
  run_one l cb cbs =
      append_all l.thread_id (record l { running = cbs; ran = l.ran ++ cb ∷ [] }) (calls cb)

  -- Its other rounds
  pub run_functors : EventLoop → List ℕ → EventLoop
  unfolding run_one
  run_functors l [] = l
  run_functors l (cb ∷ cbs) = run_functors (run_one l cb cbs) cbs

  -- `doAppendFunctors`, where no other thread comes between
  pub do_append_functors : EventLoop → EventLoop
  unfolding run_functors take_functors end_functors
  do_append_functors l = end_functors (run_functors (take_functors l) l.appended)

  -- `runInLoop`, from thread `tid`: a functor that is called at once is not among those handed over.
  pub run_in_loop : ℕ → EventLoop → ℕ → EventLoop
  unfolding append_all append_func_in_loop
  run_in_loop tid l cb =
      if is_in_loop_thread tid l then append_all tid l (calls cb) else append_func_in_loop tid l cb

  -- A step of the loop, or a call from another thread. poll(2) returns for some descriptor or at its
  -- timeout.
  pub data Step : Phase → EventLoop → Phase → EventLoop → Type 0 where
    other_appends :
        (p : Phase) (l : EventLoop) (tid cb : ℕ)
        → is_in_loop_thread tid l ≡ false
        → Step p l p (append_func_in_loop tid l cb)
    other_quits :
        (p : Phase) (l : EventLoop) (tid : ℕ)
        → is_in_loop_thread tid l ≡ false
        → Step p l p (quit tid l)
    poll_returns : (l : EventLoop) → Step polling l dispatching l
    wakeup_read : (l : EventLoop) → Step dispatching l dispatching (handle_read l)
    channel_appends :
        (l : EventLoop) (cb : ℕ)
        → Step dispatching l dispatching (append_func_in_loop l.thread_id l cb)
    channel_quits : (l : EventLoop) → Step dispatching l dispatching (quit l.thread_id l)
    takes : (l : EventLoop) → Step dispatching l calling (take_functors l)
    runs :
        (l : EventLoop) (cb : ℕ) (cbs : List ℕ)
        → l.running ≡ cb ∷ cbs
        → Step calling l calling (run_one l cb cbs)
    functor_quits : (l : EventLoop) → Step calling l calling (quit l.thread_id l)
    ends :
        (l : EventLoop) → l.running ≡ [] → l.quit ≡ false → Step calling l polling (end_functors l)

  pub data Reach (p : Phase) (l : EventLoop) : Phase → EventLoop → Type 0 where
    here : Reach p l p l
    next : {q r : Phase} {l' l'' : EventLoop} → Reach p l q l' → Step q l' r l'' → Reach p l r l''

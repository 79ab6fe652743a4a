-- ===== src/Buffer/History.antt =====
-- A buffer's calls in order, against a queue of bytes.
use thread_and_net.Prelude.{
  ℕ, ◌+◌, ◌^◌, ◌≡◌, ◌≤◌, ◌<◌, ◌⊎◌, refl, ap, List, [], ◌∷◌, ◌++◌, arith, Option, some, none, leb,
  leb→le, ◌>>=◌, ◌>>◌, assert, length, take, drop, take_all, Bool-cases, inl, inr,
}
use thread_and_net.Buffer.{
  Buffer, read_buff_size, append, retrieve, retrieve_as_string, retrieve_all_as_string, received,
  read_fd, extrabuf_size,
}
use thread_and_net.Buffer.Inv.{IsValid, read_buff_size-eq}
use thread_and_net.Buffer.Contents.{
  contents, length-contents, Holds-append, Holds-retrieve, retrieve-eq-none,
}
use thread_and_net.Buffer.Fifo.{
  retrieve_as_string_lem, retrieve_as_string-eq-none, retrieve_all_as_string_lem, read_fd_lem,
}

-- The calls of a user, and the bytes that the kernel hands to `readFd`.
pub data Call : Type 0 where
  appends reads : List ℕ → Call
  retrieves strings : ℕ → Call
  strings_all : Call

-- The bytes that a call brings in.
abbrev pub size_of : Call → ℕ
size_of (appends bytes) = length bytes
size_of (reads bytes) = length bytes
size_of _ = 0

abbrev pub total : List Call → ℕ
total [] = 0
total (c ∷ cs) = size_of c + total cs

-- One `readv` brings in no more than `extrabuf` has room for, which is always granted.
abbrev pub Grants : List Call → Type 0
Grants [] = Unit {0}
Grants (reads bytes ∷ cs) = (length bytes ≤ extrabuf_size) × Grants cs
Grants (c ∷ cs) = Grants cs

-- The bytes that the call returns, and the buffer after it.
pub call : Buffer → Call → Option (List ℕ × Buffer)
call b (appends bytes) = do b' ← append b bytes (length bytes); some ([], b')
call b (reads bytes) = do r ← read_fd b (received bytes); some ([], r.1)
call b (retrieves n) = do b' ← retrieve b n; some ([], b')
call b (strings n) = retrieve_as_string b n
call b strings_all = retrieve_all_as_string b

-- Every call in turn; `none` if one aborts.
pub run : Buffer → List Call → Option (List (List ℕ))
run b [] = some []
run b (c ∷ cs) = do r ← call b c; rest ← run r.1 cs; some (r.0 ∷ rest)

-- The queue that the buffer stands for.
pub queue_call : List ℕ → Call → Option (List ℕ × List ℕ)
queue_call q (appends bytes) = some ([], q ++ bytes)
queue_call q (reads bytes) = some ([], q ++ bytes)
queue_call q (retrieves n) = do assert (leb n (length q)); some ([], drop n q)
queue_call q (strings n) = do assert (leb n (length q)); some (take n q, drop n q)
queue_call q strings_all = some (q, [])

pub queue_run : List ℕ → List Call → Option (List (List ℕ))
queue_run q [] = some []
queue_run q (c ∷ cs) = do r ← queue_call q c; rest ← queue_run r.1 cs; some (r.0 ∷ rest)

-- The buffer's answer to one call, next to the queue's.
Agrees : ℕ → Option (List ℕ × Buffer) → Option (List ℕ × List ℕ) → Type 0
Agrees w r s =
    ((r ≡ none) × (s ≡ none))
    ⊎ ((out : List ℕ) × (b : Buffer) × (r ≡ some (out, b))
        × (s ≡ some (out, contents b))
        × IsValid b
        × (b.write_index ≤ w))

call-Agrees :
    (b : Buffer) (c : Call)
    → IsValid b
    → Grants (c ∷ [])
    → b.write_index + size_of c < 2 ^ 31
    → Agrees (b.write_index + size_of c) (call b c) (queue_call (contents b) c)
unfolding Agrees call queue_call
call-Agrees b (appends bytes) v g fit =
    let (b', e, holds, w) = Holds-append b bytes (length bytes) v (omega arith) (omega arith) in
    inr (
      [],
      b',
      rw e,
      rw (holds.holds, take_all (length bytes) bytes (omega arith)),
      holds.valid,
      omega (arith, w),
    )
call-Agrees b (reads bytes) v g fit =
    let (b', e, holds, w) = read_fd_lem b bytes v (ground arith) (omega arith) in
    inr ([], b', rw e, rw holds.holds, holds.valid, omega (arith, w))
call-Agrees b (retrieves n) v g fit = elim (Bool-cases (leb n (read_buff_size b))) [
  | inl fits ↦
      let (b', e, holds, w) = Holds-retrieve b n v (leb→le _ _ fits) in
      inr ([], b', rw e, rw (length-contents v, fits, holds.holds), holds.valid, omega (arith, w))
  | inr short ↦ inl (rw (retrieve-eq-none b n (ground arith)), rw (length-contents v, short))
]
call-Agrees b (strings n) v g fit = elim (Bool-cases (leb n (read_buff_size b))) [
  | inl fits ↦
      let (b', e, holds, w) =
        retrieve_as_string_lem b n v (leb→le _ _ fits)
          (omega (arith, leb→le _ _ fits, read_buff_size-eq v)) in
      inr (
        take n (contents b),
        b',
        e,
        rw (length-contents v, fits, holds.holds),
        holds.valid,
        omega (arith, w),
      )
  | inr short ↦
      inl (rw (retrieve_as_string-eq-none b n (ground arith)), rw (length-contents v, short))
]
call-Agrees b strings_all v g fit =
    let (b', e, holds, w) = retrieve_all_as_string_lem b v (omega (arith, read_buff_size-eq v)) in
    inr (contents b, b', e, rw holds.holds, holds.valid, omega (arith, w))

first_grant : (c : Call) (cs : List Call) → Grants (c ∷ cs) → Grants (c ∷ [])
first_grant (reads bytes) cs g = (g.0, tt)
first_grant _ cs g = tt

later-Grants : (c : Call) (cs : List Call) → Grants (c ∷ cs) → Grants cs
later-Grants (reads bytes) cs g = g.1
later-Grants _ cs g = g

-- No history of calls tells a buffer from the queue of its readable bytes: the same bytes come out
-- of each, and it aborts exactly where the queue refuses. The history brings in less than 2 ^ 31
-- bytes, and each `readFd` at most what `readv` is always given room for.
pub run-refines :
    (b : Buffer) (cs : List Call)
    → IsValid b
    → Grants cs
    → b.write_index + total cs < 2 ^ 31
    → run b cs ≡ queue_run (contents b) cs
unfolding run queue_run Agrees
run-refines b [] v g fit = refl
run-refines b (c ∷ cs) v g fit = elim (call-Agrees b c v (first_grant c cs g) (omega arith)) [
  | inl (r, s) ↦ rw (r, s)
  | inr (out, b', r, s, ok, le) ↦
      rw (r, s)
        (ap (λ t. t >>= λ rest. some (out ∷ rest))
          (run-refines b' cs ok (later-Grants c cs g) (omega arith)))
]

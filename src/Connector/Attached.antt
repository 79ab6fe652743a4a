-- ===== src/Connector/Attached.antt =====
-- The poller follows the connector.
use thread_and_net.Prelude.{
  ℕ, ◌≡◌, inl, inr, refl, sym, subst, ◌∙◌, true, false, Option, some, arith, update, if◌then◌else◌,
  Bool-cases, Option-cases,
}
use thread_and_net.Channel.{Channel, create, enable_writeing}
use thread_and_net.Poller.{Poller}
use thread_and_net.Poller.Inv.{Wf}
use thread_and_net.Poller.Attempt.{Fresh, Latest, change-Latest, remove-Latest}
use thread_and_net.Connector.{Connector, Op, is_connecting, init, apply}
use thread_and_net.Connector.Polling.{
  Effect, nothing, removes, adds, effect, Polled, touch, step, start_polling, stop_polling, Fits,
  Reach, here, next,
}
use thread_and_net.Connector.Moves.{Moves, apply-Moves, effect-Fresh}

-- The entries of the poller's map, by what they were at first: there is one more, for the channel, exactly
-- while an attempt is under way.
abbrev pub attached : Poller → Polled → ℕ → Option ℕ
attached s x f =
    if is_connecting x.connector.state
    then update s.channels (x.poller.heap x.address).fd (some x.address) f
    else s.channels f

record Inv (tid : ℕ) (s : Poller) (x : Polled) : Type 0 where
  wf : Wf x.poller
  thread : tid ≡ x.poller.thread_id
  on : is_connecting x.connector.state ≡ true → (fd : ℕ) × Latest s.channels x.poller fd x.address
  off : is_connecting x.connector.state ≡ false → (f : ℕ) → x.poller.channels f ≡ s.channels f

touch-Inv :
    (tid : ℕ) (s : Poller) (x : Polled) (c' : Connector) (e : Effect) (p : ℕ)
    → Inv tid s x
    → Moves e (is_connecting x.connector.state) (is_connecting c'.state)
    → ((fd : ℕ) → e ≡ adds fd → Fresh x.poller fd p)
    → (y : Polled) × (touch tid (record x { connector = c' }) e p ≡ some y)
      × (y.connector ≡ c')
      × Inv tid s y
unfolding touch start_polling stop_polling create
touch-Inv tid s x c' nothing p i m fresh =
    let y : Polled = record x { connector = c' } in
    (
      y,
      refl,
      refl,
      record {
        wf = i.wf;
        thread = i.thread;
        on = λ h. i.on (sym m ∙ h);
        off = λ h. i.off (sym m ∙ h);
      },
    )
touch-Inv tid s x c' removes p i m fresh =
    let (fd, l) = i.on m.0 in
    let (u, e, w, same, _, owner) = remove-Latest tid s.channels x.poller fd x.address l i.thread in
    (
      record { connector = c'; poller = u; address = x.address },
      rw e refl,
      refl,
      record {
        wf = w;
        thread = i.thread ∙ sym owner;
        on = λ h. absurd (ground (arith, m.1));
        off = λ _. same;
      },
    )
touch-Inv tid s x c' (adds fd) p i m fresh =
    let c : Channel = record (create x.poller.loop fd) {
      write_callback = true;
      error_callback = true;
    } in
    let (u, e, l, _, owner) =
      change-Latest tid x.poller p c enable_writeing i.wf (fresh fd refl) refl refl i.thread in
    (
      record { connector = c'; poller = u; address = p },
      rw e refl,
      refl,
      record {
        wf = l.wf;
        thread = i.thread ∙ sym owner;
        on = λ _. (fd, over l (i.off m.0));
        off = λ h. absurd (ground (arith, m.1));
      },
    )
  where
    over :
        {b b' : ℕ → Option ℕ} {t : Poller} {q g : ℕ}
        → Latest b t g q
        → ((f : ℕ) → b f ≡ b' f)
        → Latest b' t g q
    over {b} {b'} {t} {q} {g} l h = record {
      wf = l.wf;
      fd_eq = l.fd_eq;
      loop = l.loop;
      index = l.index;
      free = sym (h g) ∙ l.free;
      channels = λ f. ground (arith, l.channels f, h f);
    }

-- The poller's part of an operation succeeds if the connector's does.
step-Inv :
    (tid : ℕ) (s : Poller) (x : Polled) (op : Op) (p : ℕ) {c' : Connector}
    → Inv tid s x
    → Fits x op p
    → apply x.connector op ≡ some c'
    → (y : Polled) × (step tid x op p ≡ some y) × (y.connector ≡ c') × Inv tid s y
unfolding step
step-Inv tid s x op p {c' = c'} i f h =
    let (y, e, same, i') =
      touch-Inv tid s x c' (effect x.connector op) p i (apply-Moves x op p f h)
        (λ fd. effect-Fresh x op p fd f) in
    (y, rw h e, same, i')

Reach-Inv :
    (tid : ℕ) (s : Poller) {x : Polled} → Wf s → tid ≡ s.thread_id → Reach tid s x → Inv tid s x
unfolding init step
Reach-Inv tid s w ht (here p) = record {
  wf = w;
  thread = ht;
  on = λ h. absurd (ground arith);
  off = λ _ f. refl;
}
Reach-Inv tid s {x = y} w ht (next {x = x} op p r f h) =
    let i = Reach-Inv tid s w ht r in
    elim (Option-cases (apply x.connector op)) [
      | inl none_left ↦ absurd (ground arith)
      | inr (c', e) ↦
          let (z, e', _, i') = step-Inv tid s x op p i f e in
          let same : z ≡ y = ground (arith, sym e' ∙ h) in subst (Inv tid s) same i'
    ]

-- Whatever the connector has been through, in the loop's thread and over a well-formed poller that nobody
-- else changes, with descriptors and addresses that are not in use and no restart in the middle of an
-- attempt: where an operation's part in the connector succeeds, its part in the poller does, too.
pub step_succeeds :
    (tid : ℕ) (s : Poller) (x : Polled) (op : Op) (p : ℕ) (c' : Connector)
    → Wf s
    → tid ≡ s.thread_id
    → Reach tid s x
    → Fits x op p
    → apply x.connector op ≡ some c'
    → (y : Polled) × (step tid x op p ≡ some y) × (y.connector ≡ c')
step_succeeds tid s x op p c' w ht r f h =
    let (y, e, same, _) = step-Inv tid s x op p (Reach-Inv tid s w ht r) f h in (y, e, same)

-- Whatever the connector has been through, in the loop's thread and over a well-formed poller that nobody
-- else changes, with descriptors and addresses that are not in use and no restart in the middle of an
-- attempt: the poller's bookkeeping holds, and its map is the one that it was at first, but
-- for the entry of the connector's channel, which is there exactly while an attempt is under way.
pub Reach-attached :
    (tid : ℕ) (s : Poller) (x : Polled) (f : ℕ)
    → Wf s
    → tid ≡ s.thread_id
    → Reach tid s x
    → Wf x.poller × (x.poller.channels f ≡ attached s x f)
Reach-attached tid s x f w ht r =
    let i = Reach-Inv tid s w ht r in
    (
      i.wf,
      elim (Bool-cases (is_connecting x.connector.state)) [
        | inl e ↦ let (fd, l) = i.on e in rw (e, l.fd_eq) (l.channels f)
        | inr n ↦ rw n (i.off n f)
      ],
    )

-- ===== src/Poller/Attempt.antt =====
-- A channel that is new, is enabled, and is taken out again while its slot is the last one.
use thread_and_net.Prelude.{
  ℕ, ◌-◌, ◌≡◌, ◌≢◌, inl, refl, sym, ap, subst, ◌∙◌, Option, some, none, ◌>>=◌, arith, update,
  length, [], ◌∷◌, ◌++◌, true, List, length-append,
}
use thread_and_net.Channel.{Channel, Interest, interest, disable_all, is_none_event}
use thread_and_net.Poller.{
  Poller, PollFd, modify, added, change, remove, remove_channel, remove_at, set_index,
  update_channel,
}
use thread_and_net.Poller.Inv.{Wf}
use thread_and_net.Poller.Update.{modify-Wf, update_channel-Wf}
use thread_and_net.Poller.Remove.{remove_channel-Wf}
use thread_and_net.Poller.Disable.{Registered, change-Disabled, still-Registered, still-Movable}

-- An address that no entry of the map has
pub record Fresh (s : Poller) (fd p : ℕ) : Type 0 where
  pub unused : s.channels fd ≡ none
  pub unnamed : (f : ℕ) → s.channels f ≢ some p

-- The channel at `p`, for `fd`, is in the last slot of a poller, whose map has no other entry than `base`.
pub record Latest (base : ℕ → Option ℕ) (s : Poller) (fd p : ℕ) : Type 0 where
  pub wf : Wf s
  pub fd_eq : (s.heap p).fd ≡ fd
  pub loop : (s.heap p).loop ≡ s.loop
  pub index : (s.heap p).index ≡ some (length s.pollfds - 1)
  pub free : base fd ≡ none
  pub channels : (f : ℕ) → s.channels f ≡ update base fd (some p) f

-- A store at an address that the map does not have
store-Wf :
    (s : Poller) (p : ℕ) (c : Channel)
    → Wf s
    → ((f : ℕ) → s.channels f ≢ some p)
    → Wf (modify s p (λ _. c))
store-Wf s p c w n = record {
  mapped = λ f q h. ground (arith, w.mapped f q h, n f);
  placed =
      λ f q h. let (i, e, at, slot, fd) = w.placed f q h in (i, e, ground (arith, n f), slot, fd);
  distinct = λ f g q r i hf hg hq hr. ground (arith, w.distinct f g q r i hf hg, n f, n g);
  filled = λ i f e h hf. let (q, m, at) = w.filled i f e h hf in (q, m, ground (arith, n f));
}

last_index : (v : List PollFd) (x : PollFd) → length (v ++ x ∷ []) - 1 ≡ length v
last_index v x = omega (arith, length-append v (x ∷ []))

remove_channel-owner :
    (tid : ℕ) (s s' : Poller) (p : ℕ)
    → remove_channel tid s p ≡ some s'
    → (s'.loop ≡ s.loop) × (s'.thread_id ≡ s.thread_id)
unfolding remove_channel remove_at set_index
remove_channel-owner tid s s' p h = (ground arith, ground arith)

-- A new channel is enabled.
pub change-Latest :
    (tid : ℕ) (s : Poller) (p : ℕ) (c : Channel) (i : Interest)
    → Wf s
    → Fresh s c.fd p
    → c.loop ≡ s.loop
    → c.index ≡ none
    → tid ≡ s.thread_id
    → (s' : Poller) × (change tid (modify s p (λ _. c)) i p ≡ some s')
      × Latest s.channels s' c.fd p
      × (s'.loop ≡ s.loop)
      × (s'.thread_id ≡ s.thread_id)
unfolding change update_channel added
change-Latest tid s p c i w fresh hl hi ht =
    let t : Poller =
      modify (modify s p (λ _. c)) p (λ c. record c { events = interest i c.events }) in
    let wt : Wf t =
      modify-Wf (modify s p (λ _. c)) p (λ c. record c { events = interest i c.events })
        (store-Wf s p c w fresh.unnamed) refl refl in
    let (u, e, w', _) =
      update_channel-Wf tid t p wt (ground arith) ht
        (inl (ground arith, ground (arith, fresh.unused))) in
    let e' : update_channel tid t p ≡ some (added t p) = ground (arith, fresh.unused) in
    let same : u ≡ added t p = ground (arith, sym e ∙ e') in
    let placed : ((added t p).heap p).index ≡ some (length s.pollfds) = ground arith in
    (
      added t p,
      e',
      record {
        wf = subst Wf same w';
        fd_eq = ground arith;
        loop = ground arith;
        index = placed ∙ ap some (sym (last_index s.pollfds _));
        free = fresh.unused;
        channels = λ f. ground arith;
      },
      refl,
      refl,
    )

-- Its events are switched off, and it is taken out.
pub remove-Latest :
    (tid : ℕ) (base : ℕ → Option ℕ) (s : Poller) (fd p : ℕ)
    → Latest base s fd p
    → tid ≡ s.thread_id
    → (s' : Poller) × ((change tid s disable_all p >>= λ t. remove tid t p) ≡ some s')
      × Wf s'
      × ((f : ℕ) → s'.channels f ≡ base f)
      × (s'.loop ≡ s.loop)
      × (s'.thread_id ≡ s.thread_id)
unfolding remove
remove-Latest tid base s fd p l ht =
    let reg : Registered s p = record {
      loop = l.loop;
      there = ground (arith, l.channels (s.heap p).fd, l.fd_eq);
    } in
    let (t, e, d) = change-Disabled tid s p l.wf reg ht in
    let r' = still-Registered p d reg in
    let m = still-Movable p d l.index (inl l.index) in
    let (u, e', w', c) = remove_channel-Wf tid t p d.wf r'.loop (ht ∙ sym d.thread) r'.there m in
    let owner = remove_channel-owner tid t u p e' in
    let quiet : is_none_event (t.heap p) ≡ true = ground (arith, d.off) in
    let fd_u : (t.heap p).fd ≡ fd = d.fd p ∙ l.fd_eq in
    (
      u,
      rw (e, quiet) e',
      w',
      (λ f.
          back t.channels u.channels f (ap (λ c. c f) d.channels ∙ l.channels f) (ap (λ g. g f) c)
            fd_u),
      owner.0 ∙ d.loop,
      owner.1 ∙ d.thread,
    )
  where
    back :
        (b b' : ℕ → Option ℕ) {g : ℕ} (f : ℕ)
        → b f ≡ update base fd (some p) f
        → b' f ≡ update b g none f
        → g ≡ fd
        → b' f ≡ base f
    back b b' f h k e = ground (arith, l.free)

-- ===== src/Poller/Disable.antt =====
-- `disableAll` on a channel in the map, and what it leaves alone.
use thread_and_net.Prelude.{
  ℕ, ◌-◌, ◌≡◌, ◌≢◌, inl, inr, refl, sym, ap, subst, ◌∙◌, some, arith, get_elem?, length,
  get_elem?-set_ne, length-set,
}
use native.Mathlib.Decide.{ℕ_discrete}
use thread_and_net.Channel.{interest, disable_all}
use thread_and_net.Poller.{Poller, modify, change, refreshed, refreshed_slot}
use thread_and_net.Poller.Inv.{Wf}
use thread_and_net.Poller.Update.{modify-Wf, update_channel-Wf}
use thread_and_net.Poller.Remove.{Movable}
use thread_and_net.Poller.Deaf.{change-refreshed}

-- A channel in the map, of this loop
pub record Registered (s : Poller) (p : ℕ) : Type 0 where
  pub loop : (s.heap p).loop ≡ s.loop
  pub there : s.channels (s.heap p).fd ≡ some p

-- What a `disableAll` of `p` leaves alone
pub record Disabled (s s' : Poller) (p : ℕ) : Type 0 where
  pub wf : Wf s'
  pub loop : s'.loop ≡ s.loop
  pub thread : s'.thread_id ≡ s.thread_id
  pub channels : s'.channels ≡ s.channels
  pub fd : (q : ℕ) → (s'.heap q).fd ≡ (s.heap q).fd
  pub loops : (q : ℕ) → (s'.heap q).loop ≡ (s.heap q).loop
  pub index : (q : ℕ) → (s'.heap q).index ≡ (s.heap q).index
  pub off : (s'.heap p).events ≡ 0
  pub slots : length s'.pollfds ≡ length s.pollfds
  pub slot : (q i : ℕ) → (s.heap p).index ≢ some i → get_elem? s'.pollfds i ≡ get_elem? s.pollfds i

-- `disableAll` of a channel in the map
pub change-Disabled :
    (tid : ℕ) (s : Poller) (p : ℕ)
    → Wf s
    → Registered s p
    → tid ≡ s.thread_id
    → (s' : Poller) × (change tid s disable_all p ≡ some s') × Disabled s s' p
unfolding change interest refreshed
change-Disabled tid s p w r ht =
    let t : Poller = modify s p (λ c. record c { events = interest disable_all c.events }) in
    let wt : Wf t =
      modify-Wf s p (λ c. record c { events = interest disable_all c.events }) w refl refl in
    let (s', e, w', _) =
      update_channel-Wf tid t p wt (ground (arith, r.loop)) ht (inr (ground (arith, r.there))) in
    let (i, slot, at, found, _) = w.placed (s.heap p).fd p r.there in
    let same = change-refreshed tid s s' disable_all p i slot at found e in
    (
      s',
      e,
      subst (λ x. Disabled s x p) (sym same)
          (record {
            wf = subst Wf same w';
            loop = refl;
            thread = refl;
            channels = refl;
            fd = λ q. ground arith;
            loops = λ q. ground arith;
            index = λ q. ground arith;
            off = ground arith;
            slots = length-set s.pollfds i (refreshed_slot (t.heap p) slot);
            slot = λ q j n.
                get_elem?-set_ne s.pollfds i j (refreshed_slot (t.heap p) slot)
                  (λ k. n (at ∙ ap some k));
          }),
    )

-- Another channel stays in the map.
pub still-Registered :
    {s s' : Poller} {p : ℕ} (q : ℕ) → Disabled s s' p → Registered s q → Registered s' q
still-Registered {s} {s'} q d r = record {
  loop = d.loops q ∙ r.loop ∙ sym d.loop;
  there = ap (λ c. c (s'.heap q).fd) d.channels ∙ ap s.channels (d.fd q) ∙ r.there;
}

pub still-Movable :
    {s s' : Poller} {i : ℕ} (p : ℕ)
    → Disabled s s' p
    → (s.heap p).index ≡ some i
    → Movable s p
    → Movable s' p
still-Movable {i = i} p d at (inl last) = inl (ground (arith, d.index p, d.slots))
still-Movable {s} {s'} {i = i} p d at (inr (e, f, found, named)) =
    elim (ℕ_discrete i (length s.pollfds - 1)) [
      | yes last ↦ inl (ground (arith, d.index p, d.slots))
      | no inner ↦ inr (
        e,
        f,
        ap (λ n. get_elem? s'.pollfds (n - 1)) d.slots
            ∙ d.slot p (length s.pollfds - 1) (λ h. inner (ground arith))
            ∙ found,
        named,
      )
    ]

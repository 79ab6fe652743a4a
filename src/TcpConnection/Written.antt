-- ===== src/TcpConnection/Written.antt =====
-- Write events: the bytes that wait go to the wire, from the front.
use thread_and_net.Prelude.{
  subst, ==_iff, ℕ, ◌-◌, ◌^◌, ◌≡◌, ◌≤◌, ◌<◌, refl, sym, ◌∙◌, ap, List, [], ◌∷◌, ◌++◌, arith, Bool,
  true, false, some, ◌==◌, length, take, drop, Bool-cases, inl, inr, lt→ltb, take-take,
}
use thread_and_net.Channel.{has, write_event, is_writeing, interest, disable_writeing}
use thread_and_net.Channel.Events.{mask, wants, interest-mask, has-mask}
use thread_and_net.Buffer.{read_buff_size, peek}
use thread_and_net.Buffer.Inv.{IsValid, read_buff_size-eq}
use thread_and_net.Buffer.Contents.{contents, length-contents, Holds-retrieve}
use thread_and_net.Buffer.Fifo.{as_int-eq}
use thread_and_net.TcpConnection.{
  TcpConnection, disconnecting, wrote, handle_write, drained, with_interest, shutdown_now,
}
use thread_and_net.TcpConnection.Stream.{Good, unsent, is_writeing-eq, waiting-Good}

-- Once everything is written: the connection stops waiting to write, and half-closes if it is to.
drained-Good :
    (c : TcpConnection) (r : Bool)
    → IsValid c.output_buf
    → c.channel.events ≡ mask r true
    → unsent c ≡ []
    → Good (drained c)
      × ((drained c).wire ≡ c.wire)
      × ((drained c).output_buf ≡ c.output_buf)
      × (is_writeing (drained c).channel ≡ false)
      × (c.state ≡ disconnecting → (drained c).closed ≡ true)
unfolding drained shutdown_now
drained-Good c r v e nothing = (
  record {
    valid = subst IsValid (sym same_buf) v;
    reads = r;
    writes = false;
    events = off;
    busy = λ h. ap contents same_buf ∙ nothing;
  },
  ground arith,
  same_buf,
  not_writing,
  λ h. ground (arith, not_writing, off, quiet),
)
  where
    same_buf : (drained c).output_buf ≡ c.output_buf
    same_buf = ground arith

    disabled : interest disable_writeing c.channel.events ≡ mask r false
    disabled =
        ap (interest disable_writeing) e ∙ unfold wants in interest-mask disable_writeing r true

    quiet : is_writeing (with_interest c disable_writeing).channel ≡ false
    quiet = ap (λ m. has m write_event) disabled ∙ (has-mask r false).1

    off : (drained c).channel.events ≡ mask r false
    off = ground (arith, disabled)

    not_writing : is_writeing (drained c).channel ≡ false
    not_writing = ap (λ m. has m write_event) off ∙ (has-mask r false).1

-- Both halves of a write event.
written_event :
    (c : TcpConnection) (n : ℕ)
    → (g : Good c) → g.writes ≡ true
    → 0 < n
    → n ≤ read_buff_size c.output_buf
    → n < 2 ^ 31
    → (c' : TcpConnection) × (handle_write c (wrote n) ≡ some c')
      × Good c'
      × (c'.wire ≡ c.wire ++ take n (unsent c))
      × (unsent c' ≡ drop n (unsent c))
      × (unsent c' ≡ []
          → (is_writeing c'.channel ≡ false) × (c.state ≡ disconnecting → c'.closed ≡ true))
unfolding handle_write
written_event c n g on pos le small =
    let (buf, e, h, _) = Holds-retrieve c.output_buf n g.valid le in
    let c₁ : TcpConnection = record c {
      output_buf = buf;
      wire = c.wire ++ take n (peek c.output_buf);
    } in
    let waits = g.events ∙ ap (mask g.reads) on in
    let taken = ap (◌++◌ c.wire) (
      sym (
        take-take n (c.output_buf.write_index - c.output_buf.read_index) (peek c.output_buf)
          (omega (arith, read_buff_size-eq g.valid)))) in
    elim (Bool-cases (read_buff_size buf == 0)) [
      | inl empty ↦
          let nothing = no_bytes (contents buf) (length-contents h.valid ∙ (==_iff _ 0).0 empty) in
          let (g', w, b, q, s) = drained-Good c₁ g.reads h.valid waits nothing in
          (
            drained c₁,
            rw (is_writeing-eq g, on, lt→ltb 0 n pos, as_int-eq n small, e, empty) refl,
            g',
            w ∙ taken,
            ap contents b ∙ h.holds,
            λ _. (q, s),
          )
      | inr left ↦ (
        c₁,
        rw (is_writeing-eq g, on, lt→ltb 0 n pos, as_int-eq n small, e, left) refl,
        waiting-Good c₁ g.reads h.valid waits,
        taken,
        h.holds,
        λ none_left. absurd (ground (arith, length-contents h.valid, ap length none_left)),
      )
    ]
  where
    no_bytes : (l : List ℕ) → length l ≡ 0 → l ≡ []
    no_bytes [] h = refl
    no_bytes (x ∷ l) h = absurd (omega arith)

-- `handleWrite`, called on a connection in good order that waits to write, moves the bytes that
-- `::write` takes, some, less than 2 ^ 31 and no more than wait, from the front of the output
-- buffer to the wire, and keeps the connection in good order.
pub handle_write_lem :
    (c : TcpConnection) (n : ℕ)
    → (g : Good c) → g.writes ≡ true
    → 0 < n
    → n ≤ read_buff_size c.output_buf
    → n < 2 ^ 31
    → (c' : TcpConnection) × (handle_write c (wrote n) ≡ some c')
      × Good c'
      × (c'.wire ≡ c.wire ++ take n (unsent c))
      × (unsent c' ≡ drop n (unsent c))
handle_write_lem c n g on pos le small =
    let (c', e, g', w, u, _) = written_event c n g on pos le small in (c', e, g', w, u)

-- When a write event takes the last byte of a connection that is disconnecting, the connection stops
-- waiting to write, and its write side is closed then.
pub handle_write-drained :
    (c c' : TcpConnection) (n : ℕ)
    → (g : Good c) → g.writes ≡ true
    → 0 < n
    → n ≤ read_buff_size c.output_buf
    → n < 2 ^ 31
    → handle_write c (wrote n) ≡ some c'
    → unsent c' ≡ []
    → c.state ≡ disconnecting
    → (is_writeing c'.channel ≡ false) × (c'.closed ≡ true)
handle_write-drained c c' n g on pos le small h last off =
    let (d, e, _, _, _, f) = written_event c n g on pos le small in
    let same : d ≡ c' = cc in
    let (q, s) = f (ap unsent same ∙ last) in
    (
      subst (λ (x : TcpConnection). is_writeing x.channel ≡ false) same q,
      subst (λ (x : TcpConnection). x.closed ≡ true) same (s off),
    )

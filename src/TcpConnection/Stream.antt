-- ===== src/TcpConnection/Stream.antt =====
-- The bytes of a connection: in order, none lost and none twice.
use thread_and_net.Prelude.{
  subst, ℕ, ◌+◌, ◌-◌, ◌^◌, ◌≡◌, ◌≤◌, ◌<◌, refl, sym, ◌∙◌, ap, ap₂, List, [], ◌++◌, arith, Bool,
  true, false, not, ◌&&◌, some, ltb, ◌==◌, length, take, drop, length-drop, take_all,
  take-append-drop, append_assoc, append-nil, Bool-cases, inl, inr, drop_all,
}
use thread_and_net.Channel.{is_writeing, interest, enable_writeing}
use thread_and_net.Channel.Events.{mask, wants, interest-mask, has-mask}
use thread_and_net.Buffer.{read_buff_size}
use thread_and_net.Buffer.Inv.{IsValid}
use thread_and_net.Buffer.Contents.{contents, Holds-append}
use thread_and_net.Buffer.Fifo.{as_int-eq}
use thread_and_net.TcpConnection.{
  TcpConnection, wrote, keep_rest, send_in_loop_now, notify_complete, with_interest,
}

abbrev pub unsent : TcpConnection → List ℕ
unsent c = contents c.output_buf

-- The output buffer is well formed, the channel's mask is one of the four that its operations
-- reach, and bytes are left over only while the connection waits to write.
pub record Good (c : TcpConnection) : Type 0 where
  pub valid : IsValid c.output_buf
  pub reads : Bool
  pub writes : Bool
  pub events : c.channel.events ≡ mask reads writes
  pub busy : writes ≡ false → unsent c ≡ []

pub is_writeing-eq : {c : TcpConnection} (g : Good c) → is_writeing c.channel ≡ g.writes
is_writeing-eq g = rw g.events (has-mask g.reads g.writes).1

-- The connection waits to write, with a buffer that is well formed.
pub waiting-Good :
    (c : TcpConnection) (r : Bool) → IsValid c.output_buf → c.channel.events ≡ mask r true → Good c
waiting-Good c r v e = record {
  valid = v;
  reads = r;
  writes = true;
  events = e;
  busy = λ h. absurd (true≢false h);
}
  where
    true≢false : true ≡ false → ⊥
    true≢false h = cc

pub Good-of :
    (c c' : TcpConnection)
    → c'.output_buf ≡ c.output_buf
    → c'.channel.events ≡ c.channel.events
    → Good c
    → Good c'
Good-of c c' b e g = record {
  valid = subst IsValid (sym b) g.valid;
  reads = g.reads;
  writes = g.writes;
  events = e ∙ g.events;
  busy = λ h. ap contents b ∙ g.busy h;
}

notify_complete-Good : (c : TcpConnection) → Good c → Good (notify_complete c)
notify_complete-Good c g = Good-of c (notify_complete c) (ground arith) (ground arith) g

-- What a send of `n` bytes leaves alone, and how much of the output buffer it fills.
pub record Kept (n : ℕ) (c c' : TcpConnection) : Type 0 where
  pub state : c'.state ≡ c.state
  pub input : c'.input_buf ≡ c.input_buf
  pub read_callback : c'.channel.read_callback ≡ c.channel.read_callback
  pub room : c'.output_buf.write_index ≤ c.output_buf.write_index + n

keep_rest-Good :
    (c : TcpConnection) (message : List ℕ) (n : ℕ)
    → Good c
    → n ≤ length message
    → length message < 2 ^ 31
    → c.output_buf.write_index + length message < 2 ^ 62
    → (c' : TcpConnection) × (keep_rest c message n ≡ some c')
      × Good c'
      × (c'.wire ≡ c.wire)
      × (unsent c' ≡ unsent c ++ drop n message)
      × Kept (length message) c c'
unfolding keep_rest
keep_rest-Good c message n g le small fit = elim (Bool-cases (ltb n (length message))) [
  | inl part ↦
      let (buf, e, h, w) =
        Holds-append c.output_buf (drop n message) (length message - n) g.valid
          (omega (arith, length-drop n message)) (omega arith) in
      let int = as_int-eq (length message - n) (omega arith) in
      let held =
        h.holds
        ∙ ap (◌++◌ (unsent c)) (
            take_all (length message - n) (drop n message)
              (omega (arith, length-drop n message))) in
      let c₁ : TcpConnection = record c { output_buf = buf } in
      elim (Bool-cases g.writes) [
        | inl on ↦ (
          c₁,
          rw (part, int, e, is_writeing-eq g, on) refl,
          waiting-Good c₁ g.reads h.valid (g.events ∙ ap (mask g.reads) on),
          refl,
          held,
          record { state = refl; input = refl; read_callback = refl; room = omega (arith, w) },
        )
        | inr off ↦ (
          with_interest c₁ enable_writeing,
          rw (part, int, e, is_writeing-eq g, off) refl,
          waiting-Good (with_interest c₁ enable_writeing) g.reads h.valid
              (ap (interest enable_writeing) g.events ∙ enabled g.reads g.writes),
          refl,
          held,
          record { state = refl; input = refl; read_callback = refl; room = omega (arith, w) },
        )
      ]
  | inr all ↦
      let c₁ = notify_complete c in
      (
        c₁,
        rw all refl,
        notify_complete-Good c g,
        ground arith,
        unsent_notified
            ∙ sym (append-nil (unsent c))
            ∙ ap (◌++◌ (unsent c)) (sym (drop_all n message (ground arith))),
        record {
          state = ground arith;
          input = ground arith;
          read_callback = ground arith;
          room = ground arith;
        },
      )
]
  where
    enabled : (r w : Bool) → interest enable_writeing (mask r w) ≡ mask r true
    enabled r w = unfold wants in interest-mask enable_writeing r w

    unsent_notified : unsent (notify_complete c) ≡ unsent c
    unsent_notified = ground arith

-- `sendInLoop`, with what it leaves alone.
pub send_in_loop_now-Kept :
    (c : TcpConnection) (message : List ℕ) (n : ℕ)
    → Good c
    → n ≤ length message
    → length message < 2 ^ 31
    → c.output_buf.write_index + length message < 2 ^ 62
    → (c' : TcpConnection) × (send_in_loop_now c message (wrote n) ≡ some c')
      × Good c'
      × (c'.wire ++ unsent c' ≡ (c.wire ++ unsent c) ++ message)
      × Kept (length message) c c'
unfolding send_in_loop_now
send_in_loop_now-Kept c message n g le small fit =
    elim (Bool-cases (not (is_writeing c.channel) && (read_buff_size c.output_buf == 0))) [
      | inl free ↦
          let nothing : unsent c ≡ [] = g.busy (free_off free) in
          let c₁ : TcpConnection = record c { wire = c.wire ++ take n message } in
          let g₁ = Good-of c c₁ refl refl g in
          let (c', e, g', w, u, k) = keep_rest-Good c₁ message n g₁ le small fit in
          (
            c',
            rw free e,
            g',
            ap₂ ◌++◌ w (u ∙ ap (λ t. t ++ drop n message) nothing)
                ∙ append_assoc c.wire (take n message) (drop n message)
                ∙ ap (◌++◌ c.wire) (take-append-drop n message)
                ∙ ap (λ t. t ++ message) (sym (append-nil c.wire) ∙ ap (◌++◌ c.wire) (sym nothing)),
            record {
              state = k.state;
              input = k.input;
              read_callback = k.read_callback;
              room = k.room;
            },
          )
      | inr held ↦
          let (c', e, g', w, u, k) = keep_rest-Good c message 0 g (omega arith) small fit in
          (c', rw held e, g', ap₂ ◌++◌ w u ∙ sym (append_assoc c.wire (unsent c) message), k)
    ]
  where
    free_off :
        (not (is_writeing c.channel) && (read_buff_size c.output_buf == 0)) ≡ true
        → g.writes ≡ false
    free_off free = sym (is_writeing-eq g) ∙ ground arith

-- `sendInLoop` succeeds on a connection in good order, whatever part of a message of less than 2 ^
-- 31 bytes `::write` takes, if the output buffer's `writeIndex_` and the message come to less than
-- 2 ^ 62; and the bytes on the wire followed by those that wait are then the earlier ones followed
-- by the message.
pub send_in_loop_now_lem :
    (c : TcpConnection) (message : List ℕ) (n : ℕ)
    → Good c
    → n ≤ length message
    → length message < 2 ^ 31
    → c.output_buf.write_index + length message < 2 ^ 62
    → (c' : TcpConnection) × (send_in_loop_now c message (wrote n) ≡ some c')
      × Good c'
      × (c'.wire ++ unsent c' ≡ (c.wire ++ unsent c) ++ message)
send_in_loop_now_lem c message n g le small fit =
    let (c', e, g', w, k) = send_in_loop_now-Kept c message n g le small fit in (c', e, g', w)

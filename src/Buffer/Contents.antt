-- ===== src/Buffer/Contents.antt =====
-- The readable bytes of a buffer, and what each operation does to them.
use thread_and_net.Prelude.{
  ℕ, ◌+◌, ◌-◌, ◌^◌, ◌≡◌, ◌≤◌, ◌<◌, refl, ◌∙◌, sym, ap, ap₂, List, ◌++◌, arith, ltb, leb, lt→ltb,
  le→leb, ltb→lt, length, take, drop, replicate, length-take, length-drop, length-append,
  length-replicate, take_all, drop-append_le, take-append_le, take-append_add, drop-take, drop-drop,
  Bool-cases, inl, inr, Option, some, leb→le, drop_all, true, false, none, ◌%◌,
}
use thread_and_net.Buffer.{
  Buffer, move_line, read_buff_size, write_buff_size, peek, movetohead, advance, retrieve, resize,
  copy_to, append,
}
use thread_and_net.Buffer.Inv.{IsValid, read_buff_size-eq, write_buff_size-eq}
use thread_and_net.Buffer.Move.{movetohead-AtHead}

abbrev pub contents : Buffer → List ℕ
contents b = take (b.write_index - b.read_index) (peek b)

pub length-contents : {b : Buffer} → IsValid b → length (contents b) ≡ read_buff_size b
length-contents {b} v =
    omega (
      arith,
      length-take (b.write_index - b.read_index) (peek b),
      length-drop b.read_index b.v_buff,
    )

-- Bytes copied in at the write position extend the readable bytes.
contents-copy_to :
    (v : List ℕ) (r i : ℕ) (bytes : List ℕ)
    → r ≤ i
    → i ≤ length v
    → take (i + length bytes - r) (drop r (copy_to v i bytes)) ≡ take (i - r) (drop r v) ++ bytes
contents-copy_to v r i bytes hr hi =
    rw (split, kept)
      (take-append_add (length bytes) old (bytes ++ rest)
        ∙ ap (◌++◌ old) (
            take-append_le (length bytes) bytes rest (omega arith)
            ∙ take_all (length bytes) bytes (omega arith)))
  where
    old : List ℕ
    old = take (i - r) (drop r v)

    rest : List ℕ
    rest = drop (i + length bytes) v

    split : i + length bytes - r ≡ length old + length bytes
    split = omega (arith, length-take (i - r) (drop r v), length-drop r v)

    kept : drop r (copy_to v i bytes) ≡ old ++ (bytes ++ rest)
    kept =
        drop-append_le r (take i v) (bytes ++ rest) (omega (arith, length-take i v))
        ∙ ap (λ t. t ++ (bytes ++ rest)) (drop-take r i v)

pub length-copy_to :
    (v : List ℕ) (i : ℕ) (bytes : List ℕ)
    → i + length bytes ≤ length v
    → length (copy_to v i bytes) ≡ length v
length-copy_to v i bytes h = omega (
  arith,
  length-append (take i v) (bytes ++ drop (i + length bytes) v),
  length-append bytes (drop (i + length bytes) v),
  length-take i v,
  length-drop (i + length bytes) v,
)

length-resize : (n : ℕ) (v : List ℕ) → length (resize n v) ≡ n
length-resize n v = omega (
  arith,
  length-append (take n v) (replicate (n - length v) 0),
  length-take n v,
  length-replicate {A = ℕ} (n - length v) 0,
)

-- Growing the vector leaves the readable bytes alone.
contents-resize :
    (n : ℕ) (v : List ℕ) (r i : ℕ)
    → r ≤ i
    → i ≤ length v
    → length v ≤ n
    → take (i - r) (drop r (resize n v)) ≡ take (i - r) (drop r v)
contents-resize n v r i hr hi hn =
    rw (take_all n v hn, drop-append_le r v (replicate (n - length v) 0) (omega arith))
      (take-append_le (i - r) (drop r v) (replicate (n - length v) 0)
        (omega (arith, length-drop r v)))

-- What a state-changing call leaves: a valid buffer that holds the given bytes.
pub record Holds (bytes : List ℕ) (b : Buffer) : Type 0 where
  pub valid : IsValid b
  pub holds : contents b ≡ bytes

pub movetohead-Holds : (b : Buffer) → IsValid b → Holds (contents b) (movetohead b)
movetohead-Holds b v =
    let m = movetohead-AtHead b v in
    record {
      valid = omega (arith, m.read, m.write, m.size);
      holds = rw m.read (ap (λ n. take n (movetohead b).v_buff) (omega arith) ∙ m.bytes);
    }

drop-contents :
    (v : List ℕ) (r w len : ℕ)
    → drop len (take (w - r) (drop r v)) ≡ take (w - (r + len)) (drop (r + len) v)
drop-contents v r w len =
    let e : w - r - len ≡ w - (r + len) = omega arith in
    drop-take len (w - r) (drop r v) ∙ ap₂ take e (drop-drop len r v)

advance-Holds :
    (b : Buffer) (len : ℕ)
    → IsValid b
    → b.read_index + len < b.write_index
    → Holds (drop len (contents b)) (advance b len) × ((advance b len).write_index ≤ b.write_index)
unfolding advance
advance-Holds b len v h =
    let moved : Buffer = record b { read_index = b.read_index + len } in
    let no_wrap : (b.read_index + len) % 2 ^ 64 ≡ b.read_index + len = omega arith in
    let ok : IsValid moved = omega arith in
    rw (no_wrap, drop-contents b.v_buff b.read_index b.write_index len)
      (elim (Bool-cases (ltb move_line (b.read_index + len))) [
        | inl far ↦
            rw far (movetohead-Holds moved ok, omega (arith, (movetohead-AtHead moved ok).write))
        | inr near ↦ rw near (record { valid = ok; holds = refl }, omega arith)
      ])

-- `retrieve` within the readable size drops that many bytes from the front.
pub Holds-retrieve :
    (b : Buffer) (len : ℕ)
    → IsValid b
    → len ≤ read_buff_size b
    → (b' : Buffer) × (retrieve b len ≡ some b')
      × Holds (drop len (contents b)) b'
      × (b'.write_index ≤ b.write_index)
unfolding retrieve
Holds-retrieve b len v h = elim (Bool-cases (ltb len (read_buff_size b))) [
  | inl part ↦ (
    advance b len,
    rw (le→leb _ _ h, part) refl,
    (advance-Holds b len v (in_front part)).0,
    (advance-Holds b len v (in_front part)).1,
  )
  | inr all ↦ (
    record b { read_index = 0; write_index = 0 },
    rw (le→leb _ _ h, all) refl,
    record {
      valid = omega arith;
      holds =
          sym (
            drop_all len (contents b) (omega (arith, length-contents v, leb→le _ _ (not_ltb all))));
    },
    omega arith,
  )
]
  where
    in_front : ltb len (read_buff_size b) ≡ true → b.read_index + len < b.write_index
    in_front part = omega (arith, ltb→lt _ _ part, read_buff_size-eq v)

    not_ltb : ltb len (read_buff_size b) ≡ false → leb (read_buff_size b) len ≡ true
    not_ltb all = ground arith

-- Otherwise its assert fails.
pub retrieve-eq-none : (b : Buffer) (len : ℕ) → read_buff_size b < len → retrieve b len ≡ none
unfolding retrieve
retrieve-eq-none b len h = ground arith

-- Bytes written at the write position of a vector with room for them.
pub copy_to-Holds :
    (b : Buffer) (bytes : List ℕ)
    → IsValid b
    → b.write_index + length bytes ≤ length b.v_buff
    → Holds (contents b ++ bytes) (record b {
      v_buff = copy_to b.v_buff b.write_index bytes;
      write_index = b.write_index + length bytes;
    })
copy_to-Holds b bytes v room = record {
  valid = omega (arith, length-copy_to b.v_buff b.write_index bytes room);
  holds = contents-copy_to b.v_buff b.read_index b.write_index bytes v.ordered v.inside;
}

resize-Holds :
    (b : Buffer) (n : ℕ)
    → IsValid b
    → length b.v_buff ≤ n
    → n < 2 ^ 62
    → Holds (contents b) (record b { v_buff = resize n b.v_buff })
resize-Holds b n v grows fit = record {
  valid = omega (arith, length-resize n b.v_buff);
  holds = contents-resize n b.v_buff b.read_index b.write_index v.ordered v.inside grows;
}

-- `append` puts `len` bytes of its source behind the readable ones.
pub Holds-append :
    (b : Buffer) (src : List ℕ) (len : ℕ)
    → IsValid b
    → len ≤ length src
    → b.write_index + len < 2 ^ 62
    → (b' : Buffer) × (append b src len ≡ some b')
      × Holds (contents b ++ take len src) b'
      × (b'.write_index ≡ b.write_index + len)
unfolding append
Holds-append b src len v h fit = elim (Bool-cases (ltb (write_buff_size b) len)) [
  | inl short ↦
      let room : length b.v_buff ≤ len + b.write_index =
        omega (arith, ltb→lt _ _ short, write_buff_size-eq v) in
      let grown = resize-Holds b (len + b.write_index) v room (omega arith) in
      let wrote =
        copy_to-Holds (record b { v_buff = resize (len + b.write_index) b.v_buff }) (take len src)
          grown.valid (omega (arith, taken, length-resize (len + b.write_index) b.v_buff)) in
      (
        _,
        rw (int_len, short, no_wrap₁, no_wrap₂)
            (ap (wrote_at (resize (len + b.write_index) b.v_buff)) (sym taken)),
        record {
          valid = wrote.valid;
          holds = wrote.holds ∙ ap (λ t. t ++ take len src) grown.holds;
        },
        omega (arith, taken),
      )
  | inr fits ↦ (
    _,
    rw (int_len, fits, no_wrap₂) (ap (wrote_at b.v_buff) (sym taken)),
    copy_to-Holds b (take len src) v
        (omega (arith, taken, leb→le _ _ (not_ltb fits), write_buff_size-eq v)),
    omega (arith, taken),
  )
]
  where
    wrote_at : List ℕ → ℕ → Option Buffer
    wrote_at room n = some (record b {
      v_buff = copy_to room b.write_index (take len src);
      write_index = b.write_index + n;
    })

    taken : length (take len src) ≡ len
    taken = omega (arith, length-take len src)

    int_len : ltb len (2 ^ 63) ≡ true
    int_len = lt→ltb _ _ (omega arith)

    no_wrap₁ : (len + b.write_index) % 2 ^ 64 ≡ len + b.write_index
    no_wrap₁ = omega arith

    no_wrap₂ : (b.write_index + len) % 2 ^ 64 ≡ b.write_index + len
    no_wrap₂ = omega arith

    not_ltb : ltb (write_buff_size b) len ≡ false → leb len (write_buff_size b) ≡ true
    not_ltb e = ground arith

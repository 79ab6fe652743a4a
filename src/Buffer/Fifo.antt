-- ===== src/Buffer/Fifo.antt =====
-- The buffer as a queue of bytes: reads through `retrieveAsString`, writes through `append` and
-- `readFd`.
use thread_and_net.Prelude.{
  ℕ, ◌+◌, ◌-◌, ◌^◌, ◌≡◌, ◌≤◌, ◌<◌, refl, ◌∙◌, sym, ap, ap₂, List, [], ◌++◌, arith, some, none, ltb,
  leb, leb→le, le→leb, length, take, drop, length-take, length-drop, take-take, take-append-drop,
  append_assoc, take_all, Bool-cases, false, inl, inr, drop_all, ◌%◌,
}
use thread_and_net.Buffer.{
  Buffer, as_int, read_buff_size, write_buff_size, peek, retrieve_as_string, retrieve_all_as_string,
  received, bytes_read, readv_room, extrabuf_size, read_fd, copy_to,
}
use thread_and_net.Buffer.Inv.{IsValid, read_buff_size-eq, write_buff_size-eq}
use thread_and_net.Buffer.Contents.{
  contents, length-contents, Holds, Holds-retrieve, Holds-append, copy_to-Holds, length-copy_to,
}

pub as_int-eq : (n : ℕ) → n < 2 ^ 31 → as_int n ≡ n
as_int-eq n h = ground arith

-- `retrieveAsString` hands out the oldest bytes and removes them.
pub retrieve_as_string_lem :
    (b : Buffer) (len : ℕ)
    → IsValid b
    → len ≤ read_buff_size b
    → len < 2 ^ 31
    → (b' : Buffer) × (retrieve_as_string b len ≡ some (take len (contents b), b'))
      × Holds (drop len (contents b)) b'
      × (b'.write_index ≤ b.write_index)
unfolding retrieve_as_string
retrieve_as_string_lem b len v h small =
    let (b', e, holds, le) = Holds-retrieve b len v h in
    (b', rw (le→leb _ _ h, as_int-eq len small, e) (ap (λ t. some (t, b')) front), holds, le)
  where
    front : take len (peek b) ≡ take len (contents b)
    front =
        sym (
          take-take len (b.write_index - b.read_index) (peek b)
            (omega (arith, read_buff_size-eq v)))

pub retrieve_as_string-eq-none :
    (b : Buffer) (len : ℕ) → read_buff_size b < len → retrieve_as_string b len ≡ none
unfolding retrieve_as_string
retrieve_as_string-eq-none b len h = ground arith

-- `retrieveAllAsString` hands out all bytes and empties the buffer, below 2 ^ 31 bytes.
pub retrieve_all_as_string_lem :
    (b : Buffer)
    → IsValid b
    → read_buff_size b < 2 ^ 31
    → (b' : Buffer) × (retrieve_all_as_string b ≡ some (contents b, b'))
      × Holds [] b'
      × (b'.write_index ≤ b.write_index)
unfolding retrieve_all_as_string
retrieve_all_as_string_lem b v small =
    let (b', e, holds, le) = retrieve_as_string_lem b (read_buff_size b) v (omega arith) small in
    (
      b',
      e ∙ ap (λ t. some (t, b')) (take_all (read_buff_size b) (contents b) all),
      rw (drop_all (read_buff_size b) (contents b) all) at holds,
      le,
    )
  where
    all : length (contents b) ≤ read_buff_size b
    all = omega (arith, length-contents v)

read_fd_inside :
    (b : Buffer) (bytes : List ℕ)
    → IsValid b
    → length bytes ≤ write_buff_size b
    → (b' : Buffer) × (read_fd b (received bytes) ≡ some (bytes_read (length bytes), b'))
      × Holds (contents b ++ bytes) b'
      × (b'.write_index ≡ b.write_index + length bytes)
unfolding read_fd
read_fd_inside b bytes v inside =
    let no_wrap : (b.write_index + length bytes) % 2 ^ 64 ≡ b.write_index + length bytes =
      omega (arith, write_buff_size-eq v) in
    (
      _,
      rw (le→leb _ _ inside, take_all (write_buff_size b) bytes inside, no_wrap) refl,
      copy_to-Holds b bytes v (omega (arith, write_buff_size-eq v)),
      refl,
    )

read_fd_spills :
    (b : Buffer) (bytes : List ℕ)
    → IsValid b
    → write_buff_size b < length bytes
    → length bytes ≤ write_buff_size b + extrabuf_size
    → b.write_index + length bytes < 2 ^ 62
    → (b' : Buffer) × (read_fd b (received bytes) ≡ some (bytes_read (length bytes), b'))
      × Holds (contents b ++ bytes) b'
      × (b'.write_index ≡ b.write_index + length bytes)
unfolding read_fd
read_fd_spills b bytes v spills room fit =
    let first = copy_to-Holds b (take (write_buff_size b) bytes) v (omega (arith, taken, ends)) in
    let (b', e, holds, w) =
      Holds-append filled (drop (write_buff_size b) bytes) (length bytes - write_buff_size b)
        (rw at_end first.valid) (omega (arith, left)) (omega (arith, len_filled, ends)) in
    (
      b',
      rw (not_inside, as_int-eq (length bytes - write_buff_size b) (omega arith), e),
      record {
        valid = holds.valid;
        holds =
            holds.holds
            ∙ ap₂ ◌++◌ (rw at_end first.holds)
                (take_all _ (drop (write_buff_size b) bytes) (omega (arith, left)))
            ∙ append_assoc (contents b) (take (write_buff_size b) bytes)
                (drop (write_buff_size b) bytes)
            ∙ ap (◌++◌ (contents b)) (take-append-drop (write_buff_size b) bytes);
      },
      omega (arith, w, len_filled, ends),
    )
  where
    vector : List ℕ
    vector = copy_to b.v_buff b.write_index (take (write_buff_size b) bytes)

    filled : Buffer
    filled = record b { v_buff = vector; write_index = length vector }

    ends : write_buff_size b ≡ length b.v_buff - b.write_index
    ends = write_buff_size-eq v

    taken : length (take (write_buff_size b) bytes) ≡ write_buff_size b
    taken = omega (arith, length-take (write_buff_size b) bytes)

    left : length (drop (write_buff_size b) bytes) ≡ length bytes - write_buff_size b
    left = length-drop (write_buff_size b) bytes

    len_filled : length vector ≡ length b.v_buff
    len_filled =
        length-copy_to b.v_buff b.write_index (take (write_buff_size b) bytes)
          (omega (arith, taken, ends))

    at_end : length vector ≡ b.write_index + length (take (write_buff_size b) bytes)
    at_end = omega (arith, len_filled, taken, ends)

    not_inside : leb (length bytes) (write_buff_size b) ≡ false
    not_inside = ground arith

-- `readFd` appends what `readv` put into its two vectors, whichever of them the bytes reached.
-- `readv` fills at most the room that it is given.
pub read_fd_lem :
    (b : Buffer) (bytes : List ℕ)
    → IsValid b
    → length bytes ≤ readv_room b
    → b.write_index + length bytes < 2 ^ 62
    → (b' : Buffer) × (read_fd b (received bytes) ≡ some (bytes_read (length bytes), b'))
      × Holds (contents b ++ bytes) b'
      × (b'.write_index ≡ b.write_index + length bytes)
unfolding read_fd
read_fd_lem b bytes v room fit = elim (Bool-cases (leb (length bytes) (write_buff_size b))) [
  | inl inside ↦ read_fd_inside b bytes v (leb→le _ _ inside)
  | inr spills ↦
      read_fd_spills b bytes v (ground arith)
        (elim (Bool-cases (ltb (write_buff_size b) extrabuf_size)) [
          | inl two ↦ rw two at room
          | inr one ↦ absurd (one_vector one spills)
        ])
        fit
]
  where
    one_vector :
        ltb (write_buff_size b) extrabuf_size ≡ false
        → leb (length bytes) (write_buff_size b) ≡ false
        → ⊥
    one_vector one spills = ground arith

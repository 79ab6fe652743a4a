-- ===== src/Buffer.antt =====
-- ThreadAndNetWorkCoding/zdq_buffer.h and zdq_buffer.cpp: the byte buffer of a connection.
-- Bytes are only moved, so a byte is any number. `size_t` is taken mod 2 ^ 64, and an `int`
-- argument is the `size_t` that the code's comparisons and sums convert it to. The vector's own
-- limit (`max_size`) is not modelled: a resize always succeeds.
pub mod Inv
pub mod Move
pub mod Contents
pub mod Fifo
pub mod History
pub mod Examples
use thread_and_net.Prelude.{
  ℕ, zero, suc, ◌+◌, ◌-◌, ◌%◌, ◌^◌, Bool, Option, none, some, List, [], ◌++◌, ltb, leb,
  if◌then◌else◌, ◌>>=◌, ◌>>◌, assert, length, get_or, set, take, drop, replicate,
}

pub record Buffer : Type 0 where
  pub v_buff : List ℕ
  pub read_index : ℕ
  pub write_index : ℕ

abbrev pub default_size : ℕ
default_size = 1024

abbrev pub move_line : ℕ
move_line = 1024

-- A `size_t` that is passed as an `int`, and converted back to be compared or added.
abbrev pub as_int : ℕ → ℕ
as_int n = if ltb (n % 2 ^ 32) (2 ^ 31) then n % 2 ^ 32 else n % 2 ^ 32 + (2 ^ 64 - 2 ^ 32)

unfoldable pub init : ℕ → Buffer
init size = record { v_buff = replicate size 0; read_index = 0; write_index = 0 }

abbrev pub read_buff_size : Buffer → ℕ
read_buff_size b = (b.write_index + 2 ^ 64 - b.read_index) % 2 ^ 64

abbrev pub write_buff_size : Buffer → ℕ
write_buff_size b = (length b.v_buff + 2 ^ 64 - b.write_index) % 2 ^ 64

-- The memory that the returned pointer leads to.
abbrev pub peek : Buffer → List ℕ
peek b = drop b.read_index b.v_buff

-- `while (readIndex_ < writeIndex_) v_buff_[i++] = v_buff_[readIndex_++];`
move_loop : ℕ → List ℕ → ℕ → ℕ → ℕ → List ℕ × ℕ
move_loop zero v i r w = (v, i)
move_loop (suc fuel) v i r w =
    let rest = move_loop fuel (set v i (get_or v r 0)) (i + 1) (r + 1) w in
    if ltb r w then rest else (v, i)

-- The loop makes at most `writeIndex_` rounds.
pub movetohead : Buffer → Buffer
movetohead b =
    let (v, i) = move_loop b.write_index b.v_buff 0 b.read_index b.write_index in
    record { v_buff = v; read_index = 0; write_index = i }

advance : Buffer → ℕ → Buffer
advance b len =
    let moved : Buffer = record b { read_index = (b.read_index + len) % 2 ^ 64 } in
    if ltb move_line moved.read_index then movetohead moved else moved

unfoldable pub retrieve : Buffer → ℕ → Option Buffer
unfolding advance
retrieve b len = do
  assert (leb len (read_buff_size b))
  some (
      if ltb len (read_buff_size b)
      then advance b len
      else record b { read_index = 0; write_index = 0 })

-- `std::vector::resize`
abbrev pub resize : ℕ → List ℕ → List ℕ
resize n v = take n v ++ replicate (n - length v) 0

-- `std::copy` into a vector, from index `i` on
abbrev pub copy_to : List ℕ → ℕ → List ℕ → List ℕ
copy_to v i bytes = take i v ++ (bytes ++ drop (i + length bytes) v)

-- `none` for a negative length: the copy is then undefined.
unfoldable pub append : Buffer → List ℕ → ℕ → Option Buffer
append b src len =
    let v =
      if ltb (write_buff_size b) len
      then resize ((len + b.write_index) % 2 ^ 64) b.v_buff
      else b.v_buff in
    if ltb len (2 ^ 63)
    then some (record b {
      v_buff = copy_to v b.write_index (take len src);
      write_index = (b.write_index + len) % 2 ^ 64;
    })
    else none

pub retrieve_as_string : Buffer → ℕ → Option (List ℕ × Buffer)
retrieve_as_string b len = do
  assert (leb len (read_buff_size b))
  b' ← retrieve b (as_int len)
  some (take len (peek b), b')

pub retrieve_all_as_string : Buffer → Option (List ℕ × Buffer)
retrieve_all_as_string b = retrieve_as_string b (read_buff_size b)

-- What `readv` does: the bytes that it puts into the two vectors, or an error number.
pub data Readv : Type 0 where
  received : List ℕ → Readv
  failed : ℕ → Readv

-- `ssize_t n`, and `*savedErrno` where `n < 0`
pub data ReadResult : Type 0 where
  bytes_read : ℕ → ReadResult
  read_error : ℕ → ReadResult

abbrev pub extrabuf_size : ℕ
extrabuf_size = 65536

-- The room that `vec` offers: `extrabuf` is passed only if the buffer's own room is smaller.
abbrev pub readv_room : Buffer → ℕ
readv_room b =
    if ltb (write_buff_size b) extrabuf_size
    then write_buff_size b + extrabuf_size
    else write_buff_size b

unfoldable pub read_fd : Buffer → Readv → Option (ReadResult × Buffer)
read_fd b (failed errno) = some (read_error errno, b)
read_fd b (received bytes) =
    let writable = write_buff_size b in
    let filled = copy_to b.v_buff b.write_index (take writable bytes) in
    if leb (length bytes) writable
    then some (
      bytes_read (length bytes),
      record b { v_buff = filled; write_index = (b.write_index + length bytes) % 2 ^ 64 },
    )
    else (do
      b' ←
          append (record b { v_buff = filled; write_index = length filled }) (drop writable bytes)
            (as_int (length bytes - writable))
      some (bytes_read (length bytes), b'))

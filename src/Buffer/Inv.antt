-- ===== src/Buffer/Inv.antt =====
-- The representation invariant of the buffer, and the sizes under it.
use thread_and_net.Prelude.{◌-◌, ◌^◌, ◌≡◌, ◌≤◌, ◌<◌, arith, length}
use thread_and_net.Buffer.{Buffer, read_buff_size, write_buff_size}

pub record IsValid (b : Buffer) : Type 0 where
  pub ordered : b.read_index ≤ b.write_index
  pub inside : b.write_index ≤ length b.v_buff
  pub small : length b.v_buff < 2 ^ 62

pub read_buff_size-eq : {b : Buffer} → IsValid b → read_buff_size b ≡ b.write_index - b.read_index
read_buff_size-eq v = omega arith

pub write_buff_size-eq :
    {b : Buffer} → IsValid b → write_buff_size b ≡ length b.v_buff - b.write_index
write_buff_size-eq v = omega arith

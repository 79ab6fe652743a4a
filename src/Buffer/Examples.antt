-- ===== src/Buffer/Examples.antt =====
-- The buffer's theorems on small buffers.
use thread_and_net.Prelude.{ℕ, ◌≤◌, ◌≡◌, List, [], ◌∷◌, some, arith, drop}
use thread_and_net.Buffer.{Buffer, read_buff_size, retrieve, retrieve_all_as_string}
use thread_and_net.Buffer.Inv.{IsValid}
use thread_and_net.Buffer.Contents.{contents, Holds, Holds-retrieve}
use thread_and_net.Buffer.Fifo.{retrieve_all_as_string_lem}
use thread_and_net.Buffer.History.{
  Call, appends, reads, strings, strings_all, run, queue_run, run-refines,
}

-- "hi" in a buffer of four bytes
abbrev greeting : Buffer
greeting = record { v_buff = 104 ∷ 105 ∷ 0 ∷ 0 ∷ []; read_index = 0; write_index = 2 }

greeting-IsValid : IsValid greeting
greeting-IsValid = record { ordered = omega arith; inside = omega arith; small = omega arith }

abbrev crlf : List ℕ
crlf = 13 ∷ 10 ∷ []

abbrev talk : List Call
talk = appends (33 ∷ []) ∷ strings 2 ∷ reads crlf ∷ strings_all ∷ []

run-refines_example : run greeting talk ≡ queue_run (contents greeting) talk
run-refines_example = run-refines greeting talk greeting-IsValid (omega arith, tt) (omega arith)

waiting : 1 ≤ read_buff_size greeting
waiting = omega arith

Holds-retrieve_example :
    (b' : Buffer) × (retrieve greeting 1 ≡ some b')
    × Holds (drop 1 (contents greeting)) b'
    × (b'.write_index ≤ 2)
Holds-retrieve_example = Holds-retrieve greeting 1 greeting-IsValid waiting

retrieve_all_as_string_example :
    (b' : Buffer) × (retrieve_all_as_string greeting ≡ some (contents greeting, b'))
    × Holds [] b'
    × (b'.write_index ≤ 2)
retrieve_all_as_string_example = retrieve_all_as_string_lem greeting greeting-IsValid (omega arith)

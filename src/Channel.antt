-- ===== src/Channel.antt =====
-- ThreadAndNetWorkCoding/zdq_channel.h and zdq_channel.cpp: the events that a descriptor waits for,
-- and the dispatch of those that came. A callback is a name here: what it does is the matter of the
-- class that sets it. `revents_` is written by the poller only, so no callback changes the tests.
pub mod Events
pub mod Examples
use Prim.Native.Nat.{bit_and, bit_or}
use thread_and_net.Prelude.{
  ℕ, ◌-◌, ◌^◌, Bool, true, false, not, ◌&&◌, Option, none, List, [], ◌∷◌, ◌++◌, ◌==◌, if◌then◌else◌,
}

-- The bits of poll.h that the code names.
abbrev pub pollin : ℕ
pollin = 0x001

abbrev pub pollpri : ℕ
pollpri = 0x002

abbrev pub pollout : ℕ
pollout = 0x004

abbrev pub pollerr : ℕ
pollerr = 0x008

abbrev pub pollhup : ℕ
pollhup = 0x010

abbrev pub pollnval : ℕ
pollnval = 0x020

abbrev pub pollrdhup : ℕ
pollrdhup = 0x2000

abbrev pub none_event : ℕ
none_event = 0

abbrev pub read_event : ℕ
read_event = bit_or pollin pollpri

abbrev pub write_event : ℕ
write_event = pollout

-- An index of `none` is the initial -1.
pub record Channel : Type 0 where
  pub loop : ℕ
  pub fd : ℕ
  pub events : ℕ
  pub revents : ℕ
  pub index : Option ℕ
  pub read_callback : Bool
  pub write_callback : Bool
  pub error_callback : Bool
  pub close_callback : Bool
  pub event_handling : Bool

unfoldable pub create : ℕ → ℕ → Channel
create loop fd = record {
  loop = loop;
  fd = fd;
  events = none_event;
  revents = 0;
  index = none;
  read_callback = false;
  write_callback = false;
  error_callback = false;
  close_callback = false;
  event_handling = false;
}

-- `x & mask` as a condition
abbrev pub has : ℕ → ℕ → Bool
has x mask = not (bit_and x mask == 0)

-- `x & ~mask`, on an `int`
abbrev pub clear : ℕ → ℕ → ℕ
clear x mask = bit_and x (2 ^ 32 - 1 - mask)

abbrev pub is_none_event : Channel → Bool
is_none_event c = c.events == none_event

abbrev pub is_reading : Channel → Bool
is_reading c = has c.events read_event

abbrev pub is_writeing : Channel → Bool
is_writeing c = has c.events write_event

-- The changes of `events_`; `update` of the poller follows each of them.
pub data Interest : Type 0 where
  enable_reading disable_reading enable_writeing disable_writeing disable_all : Interest

unfoldable pub interest : Interest → ℕ → ℕ
interest enable_reading e = bit_or e read_event
interest disable_reading e = clear e read_event
interest enable_writeing e = bit_or e write_event
interest disable_writeing e = clear e write_event
interest disable_all e = none_event

pub data Callback : Type 0 where
  read write error close : Callback

abbrev pub when : Bool → Callback → List Callback
when true k = k ∷ []
when false k = []

-- The callbacks that `handleEvent` runs, in order.
unfoldable pub handle_event : Channel → List Callback
handle_event c =
    when (has c.revents pollhup && not (has c.revents pollin) && c.close_callback) close
    ++ (when (has c.revents (bit_or pollerr pollnval) && c.error_callback) error
        ++ (when (has c.revents (bit_or (bit_or pollin pollpri) pollrdhup) && c.read_callback) read
            ++ when (has c.revents pollout && c.write_callback) write))

-- ===== src/Client/Frame.antt =====
-- src/eoclient.cpp, `EOClient::Tick` with no upload under way, and `Client::Recv` of src/socket.cpp
-- as a queue of bytes: the state machine that cuts the stream of bytes into packets. `Execute` is
-- recorded by the packet that it is called with.
pub mod Parse
pub mod Stream
pub mod Progress
use etheos.Base.{
  ℕ, zero, suc, ◌+◌, ◌-◌, Bool, true, false, List, [], ◌∷◌, ◌++◌, length, take, drop, ◌==◌,
  if◌then◌else◌,
}
use etheos.Packet.Number.{number}

pub data PacketState : Type 0 where
  read_len1 read_len2 read_data : PacketState

pub record Frame : Type 0 where
  pub packet_state : PacketState
  pub raw_len1 : ℕ
  pub raw_len2 : ℕ
  pub len : ℕ
  pub bytes : List ℕ
  pub executed : List (List ℕ)

-- The fields that `EOClient::Initialize` sets.
unfoldable pub new_frame : Frame
new_frame = record {
  packet_state = read_len1;
  raw_len1 = 0;
  raw_len2 = 0;
  len = 0;
  bytes = [];
  executed = [];
}

-- What one round of the loop leaves: the state, the bytes left in `data`, and `done`.
pub record Round : Type 0 where
  pub frame : Frame
  pub left : List ℕ
  pub done : Bool

unfoldable pub on_data : Frame → List ℕ → Round
on_data f d =
    let bytes = f.bytes ++ take f.len d in
    let len = f.len - length (take f.len d) in
    if len == 0
    then record {
      frame = record f {
        packet_state = read_len1;
        len = len;
        bytes = [];
        executed = f.executed ++ bytes ∷ [];
      };
      left = drop f.len d;
      done = true;
    }
    else record { frame = record f { len = len; bytes = bytes }; left = drop f.len d; done = false }

unfoldable pub on_len2 : Frame → List ℕ → Round
unfolding on_data
on_len2 f [] = record { frame = f; left = []; done = false }
on_len2 f (c ∷ d) =
    let f' = record f {
      raw_len2 = c;
      len = number f.raw_len1 c 254 254;
      packet_state = read_data;
    } in
    if length d == 0 then record { frame = f'; left = []; done = false } else on_data f' d

unfoldable pub on_len1 : Frame → List ℕ → Round
unfolding on_len2
on_len1 f [] = record { frame = f; left = []; done = false }
on_len1 f (c ∷ d) =
    let f' = record f { raw_len1 = c; packet_state = read_len2 } in
    if length d == 0 then record { frame = f'; left = []; done = false } else on_len2 f' d

-- The `switch`, where each case falls through to the next while `data` has bytes.
unfoldable pub round : Frame → List ℕ → Round
unfolding on_len1 on_len2 on_data
round f d = elim f.packet_state [
  | read_len1 ↦ on_len1 f d
  | read_len2 ↦ on_len2 f d
  | read_data ↦ on_data f d
]

-- `while (data.length() > 0 && !done)`. A round takes a byte or is the last.
unfoldable pub rounds : ℕ → Frame → List ℕ → Frame
rounds zero f d = f
rounds (suc fuel) f [] = f
rounds (suc fuel) f (c ∷ d) =
    let r = round f (c ∷ d) in
    let rest = rounds fuel r.frame r.left in if r.done then r.frame else rest

-- How many bytes `Tick` asks for.
unfoldable pub wanted : Frame → ℕ
wanted f = elim f.packet_state [ read_data ↦ f.len | _ ↦ 1 ]

-- One `Tick`, on the bytes that the socket has buffered.
unfoldable pub tick : Frame → List ℕ → Frame × List ℕ
unfolding wanted rounds round
tick f inbox = let d = take (wanted f) inbox in (rounds (length d) f d, drop (wanted f) inbox)

-- What happens to a connection: bytes arrive, or the server ticks.
pub data Event : Type 0 where
  arrive : List ℕ → Event
  ticked : Event

unfoldable pub on_event : Event → Frame × List ℕ → Frame × List ℕ
unfolding tick
on_event (arrive bytes) (f, inbox) = (f, inbox ++ bytes)
on_event ticked (f, inbox) = tick f inbox

unfoldable pub run : List Event → Frame × List ℕ → Frame × List ℕ
run [] s = s
run (e ∷ es) s = run es (on_event e s)

-- ===== src/Client/Execute.antt =====
-- src/eoclient.cpp, `EOClient::Execute`: what becomes of a packet that has been cut from the stream.
-- The handlers' queue holds the readers, each with its cursor behind the sequence number.
pub mod Safety
pub mod Accept
use etheos.Base.{
  ℕ, ◌+◌, Bool, true, false, Option, none, some, List, [], ◌∷◌, ◌++◌, length, ltb, ◌==◌, ◌&&◌, not,
  if◌then◌else◌,
}
use etheos.Base.Int.{ℤ, pos, leb_ℤ, eqb_ℤ}
use etheos.Packet.Id.{f_init}
use etheos.Packet.Cipher.{Processor, decode}
use etheos.Packet.Reader.{
  Reader, Outcome, ok, overrun, ◌>>=◌, new_reader, action, family, get_char, get_short,
}
use etheos.Client.Sequence.{Sequence, pong_new_sequence, gen_sequence}

pub record Client : Type 0 where
  pub connected : Bool
  pub processor : Processor
  pub sequence : Sequence
  pub queue : List Reader
  pub async_op : Bool

-- `PACKET_INTERNAL`, `PACKET_CONNECTION` and `PACKET_PING`.
abbrev pub f_internal : ℕ
f_internal = 0

abbrev pub f_connection : ℕ
f_connection = 1

abbrev pub a_ping : ℕ
a_ping = 240

-- `EOClient::AsyncOpPending`.
unfoldable pub async_op_pending : Bool → Client → Client
async_op_pending pending c = record c { async_op = pending }

-- `Client::Close` on a connection of a server. The time of closing is left out.
unfoldable pub close : Client → Client
close c = record c { connected = false }

unfoldable pub add_action : Reader → Client → Client
add_action r c = record c { queue = c.queue ++ r ∷ [] }

-- The number that the client sends, which takes two digits from 253 on.
unfoldable pub get_sequence : ℤ → Reader → Outcome (ℕ × Reader)
get_sequence server_seq r = if leb_ℤ (pos 253) server_seq then get_short r else get_char r

-- `enforce` is the setting `EnforceSequence`.
unfoldable pub check_sequence : Bool → Client → Reader → Outcome Client
unfolding close async_op_pending add_action
check_sequence enforce c r = do
  let ping_reply = family r == f_connection && action r == a_ping
  let start = if ping_reply then pong_new_sequence c.sequence else c.sequence
  let (server_seq, after) = gen_sequence start
  let c' = record c { sequence = after }
  (client_seq, r') ← get_sequence server_seq r
  ok (
      if enforce && not (eqb_ℤ (pos client_seq) server_seq)
      then close (async_op_pending false c')
      else add_action r' c')

unfoldable pub dispatch : Bool → Client → Reader → Outcome Client
unfolding close async_op_pending add_action
dispatch enforce c r =
    if family r == f_internal
    then ok (close (async_op_pending false c))
    else if family r == f_init
    then ok (add_action r (record c { sequence = (gen_sequence c.sequence).1 }))
    else check_sequence enforce c r

unfoldable pub execute : Bool → Client → List ℕ → Outcome Client
execute enforce c bytes =
    if ltb (length bytes) 2
    then ok c
    else if not c.connected
    then ok c
    else elim (decode c.processor bytes) [
      | none ↦ overrun
      | some text ↦ dispatch enforce c (new_reader text)
    ]

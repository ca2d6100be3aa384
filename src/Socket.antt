-- ===== src/Socket.antt =====
-- src/socket.cpp, `Client`: the two ring buffers of a connection. A `std::size_t` position is masked
-- by the buffer's length less one, so that the length has to be a power of two. The socket calls
-- `recv` and `send` are arguments: the bytes that one delivers, and how many the other takes.
pub mod Window
pub mod Contents
pub mod Filling
pub mod Sending
pub mod Stream
mod Tests
use Prim.Native.Nat.{bit_and}
use etheos.Base.{
  ℕ, zero, suc, ◌+◌, ◌-◌, ◌%◌, min, Bool, true, false, Option, none, some, List, [], ◌∷◌, length,
  get_or, set, ltb, ◌==◌, replicate, if◌then◌else◌,
}

-- `recv_buffer` or `send_buffer` with its positions. The byte got last stands at `gpos`, the one put
-- last at `ppos`.
pub record Buffer : Type 0 where
  pub bytes : List ℕ
  pub gpos : ℕ
  pub ppos : ℕ
  pub used : ℕ

-- A new client's buffer after `SetRecvBuffer` or `SetSendBuffer`.
unfoldable pub new_buffer : ℕ → Buffer
new_buffer size = record { bytes = replicate size 0; gpos = 0; ppos = 0; used = 0 }

-- One place on: `(pos + 1) & mask`.
abbrev pub next : Buffer → ℕ → ℕ
next b pos = bit_and (pos + 1) (length b.bytes - 1)

-- The loop of `Recv`: the bytes behind `gpos`, and where it comes to stand.
unfoldable pub get_loop : Buffer → ℕ → ℕ → List ℕ × ℕ
get_loop b zero gpos = ([], gpos)
get_loop b (suc n) gpos =
    let (ret, gpos') = get_loop b n (next b gpos) in (get_or b.bytes (next b gpos) 0 ∷ ret, gpos')

-- `Client::Recv`.
unfoldable pub recv : ℕ → Buffer → List ℕ × Buffer
unfolding get_loop
recv wanted b =
    let n : ℕ = min wanted b.used in
    let (ret, gpos') = get_loop b n b.gpos in (ret, record b { gpos = gpos'; used = b.used - n })

-- The loop of `Send` and `DoRecv`.
unfoldable pub put_loop : Buffer → List ℕ → Buffer
put_loop b [] = b
put_loop b (c ∷ cs) =
    put_loop (record b { ppos = next b b.ppos; bytes = set b.bytes (next b b.ppos) c }) cs

abbrev pub put : Buffer → List ℕ → Buffer
put b cs = record (put_loop b cs) { used = b.used + length cs }

-- `Client::Send`; `none` stands for closing the connection.
unfoldable pub send : List ℕ → Buffer → Option Buffer
unfolding put_loop
send cs b = if ltb (length b.bytes - b.used) (length cs) then none else some (put b cs)

-- How many bytes `DoRecv` asks for.
abbrev pub to_recv : Buffer → ℕ
to_recv b = min (length b.bytes - b.used) 8192

-- `Client::DoRecv`, where `received` are the bytes that `recv` delivers, none if it fails.
unfoldable pub do_recv : List ℕ → Buffer → Bool × Buffer
unfolding put_loop
do_recv received b =
    if to_recv b == 0
    then (false, b)
    else if length received == 0
    then (false, b)
    else (true, put b received)

-- The bytes that `DoSend` hands to `send`, with the buffer as its loop leaves it.
unfoldable pub to_send : Buffer → List ℕ × Buffer
unfolding get_loop
to_send b =
    let (ret, gpos') = get_loop b (min b.used 8192) b.gpos in (ret, record b { gpos = gpos' })

-- `Client::DoSend`, where `written` is how many bytes `send` takes, `none` if it fails.
unfoldable pub do_send : Option ℕ → Buffer → Bool × Buffer
unfolding to_send
do_send none b = (false, (to_send b).1)
do_send (some written) b = (
  true,
  record b { gpos = bit_and (b.gpos + written) (length b.bytes - 1); used = b.used - written },
)

-- ===== src/Socket/Sending.antt =====
-- src/socket.cpp: what `Send`, `DoRecv` and `DoSend` do to the queues of bytes.
use mathlib.Core.List.{append-nil}
use etheos.Base.{
  ℕ, suc, ◌+◌, ◌-◌, ◌%◌, ◌≤◌, ◌<◌, ◌≡◌, sym, ap, ◌∙◌, min, true, false, not, none, some, List, [],
  ◌∷◌, ◌++◌, arith, length, take, ◌==◌, inl, inr, Bool-cases, take-append-drop, length-take,
}
use etheos.Socket.{Buffer, put, send, to_recv, do_recv, to_send, do_send}
use etheos.Socket.Window.{length-behind, take-min, take-take}
use etheos.Socket.Contents.{contents, IsRing, get_loop-behind, recv_parts, recv_keeps, mask-mod}
use etheos.Socket.Filling.{contents-put, put-IsRing}

-- `Send` on a well-formed buffer: bytes for which there is room are queued behind those that wait
-- and the buffer stays well formed; with too little room nothing is queued and the client is closed.
pub send-append :
    {b : Buffer} (cs : List ℕ)
    → IsRing b
    → (b.used + length cs ≤ length b.bytes
        → (b' : Buffer) × (send cs b ≡ some b') × (contents b' ≡ contents b ++ cs) × IsRing b')
      × (length b.bytes < b.used + length cs → send cs b ≡ none)
unfolding send
send-append {b} cs v = (
  λ fits. (put b cs, ground arith, contents-put v cs fits, put-IsRing v cs fits),
  λ full. (let room = v.room in ground arith),
)

-- `DoRecv` on a well-formed buffer, where the socket delivers no more than is asked for: what it
-- delivers is queued behind the bytes that wait, the buffer stays well formed, and the result says
-- whether there was a byte.
pub do_recv-append :
    {b : Buffer} (received : List ℕ)
    → IsRing b
    → length received ≤ to_recv b
    → (contents (do_recv received b).1 ≡ contents b ++ received)
      × IsRing (do_recv received b).1
      × ((do_recv received b).0 ≡ not (length received == 0))
unfolding do_recv
do_recv-append {b} [] v h = elim (Bool-cases (to_recv b == 0)) [
  | inl e ↦ rw e (sym (append-nil _), v, (ground arith))
  | inr e ↦ rw e (sym (append-nil _), v, (ground arith))
]
do_recv-append {b} (c ∷ cs) v h =
    let fits : b.used + length (c ∷ cs) ≤ length b.bytes = omega (arith, v.room) in
    let some_room : (to_recv b == 0) ≡ false = ground arith in
    let some_bytes : (suc (length cs) == 0) ≡ false = ground arith in
    rw (some_room, some_bytes)
      (contents-put v (c ∷ cs) fits, put-IsRing v (c ∷ cs) fits, ground arith)

to_send_lem : {b : Buffer} → IsRing b → (to_send b).0 ≡ take 8192 (contents b)
unfolding to_send
to_send_lem {b} v =
    let n = min b.used 8192 in
    let (here, _) = recv_parts {b = b} n v (omega arith) in
    let counted : n ≡ min 8192 (length (contents b)) =
      omega (arith, length-behind b.bytes (length b.bytes) b.gpos b.used) in
    rw (get_loop-behind b v.log n b.gpos v.size v.got)
      (here ∙ ap (λ m. take m (contents b)) counted ∙ take-min 8192 (contents b))

do_send_lem :
    {b : Buffer} (written : ℕ)
    → IsRing b
    → do_send (some written) b
      ≡ (true, record b { gpos = (b.gpos + written) % length b.bytes; used = b.used - written })
unfolding do_send
do_send_lem {b} written v = rw (mask-mod (length b.bytes) v.log (b.gpos + written) v.size)

-- `DoSend` on a well-formed buffer, where the socket takes the first `written` of the bytes that it
-- is handed: it is handed the oldest 8192 bytes (or all there are), and what it takes, followed by
-- what stays queued, is what was queued, so that no byte is lost, repeated or moved.
pub do_send-drop :
    {b : Buffer} (written : ℕ)
    → IsRing b
    → written ≤ length (to_send b).0
    → ((to_send b).0 ≡ take 8192 (contents b))
      × (take written (to_send b).0 ++ contents (do_send (some written) b).1 ≡ contents b)
      × IsRing (do_send (some written) b).1
do_send-drop {b} written v h =
    let all : length (to_send b).0 ≡ min 8192 b.used =
      ap length (to_send_lem v)
      ∙ length-take 8192 (contents b)
      ∙ ap (min 8192) (length-behind b.bytes (length b.bytes) b.gpos b.used) in
    let few : written ≤ min 8192 b.used = omega (arith, h, all) in
    let (_, left) = recv_parts {b = b} written v (omega (arith, few)) in
    let taken : take written (to_send b).0 ≡ take written (contents b) =
      ap (take written) (to_send_lem v)
      ∙ take-take written 8192 (contents b) (omega (arith, few)) in
    rw (do_send_lem written v) (
      to_send_lem v,
      rw (taken, left) (take-append-drop written (contents b)),
      recv_keeps written v (omega (arith, few)),
    )

-- ===== src/Socket/Stream.antt =====
-- src/eoclient.cpp and src/socket.cpp: `Tick` reading through `Recv`, and the server's `DoRecv`
-- between ticks.
use etheos.Base.{◌≤◌, ◌≡◌, refl, ap, ◌∙◌, sym, List, [], ◌∷◌, length}
use etheos.Client.Frame.{Frame, Event, arrive, ticked, wanted, rounds, on_event, run}
use etheos.Socket.{Buffer, recv, to_recv, do_recv}
use etheos.Socket.Contents.{contents, IsRing, recv-take}
use etheos.Socket.Sending.{do_recv-append}

-- `EOClient::Tick` with its call of `Recv`.
unfoldable pub buffered_tick : Frame → Buffer → Frame × Buffer
unfolding wanted rounds recv
buffered_tick f b = let (d, b') = recv (wanted f) b in (rounds (length d) f d, b')

unfoldable pub on_buffered : Event → Frame × Buffer → Frame × Buffer
unfolding buffered_tick do_recv
on_buffered (arrive bytes) (f, b) = (f, (do_recv bytes b).1)
on_buffered ticked (f, b) = buffered_tick f b

unfoldable pub run_buffered : List Event → Frame × Buffer → Frame × Buffer
run_buffered [] s = s
run_buffered (e ∷ es) s = run_buffered es (on_buffered e s)

-- The socket delivers no more than `DoRecv` asks it for.
abbrev pub Fits : Event → Buffer → Type 0
Fits (arrive bytes) b = length bytes ≤ to_recv b
Fits ticked b = Unit

abbrev pub AllFit : List Event → Frame × Buffer → Type 0
AllFit [] s = Unit
AllFit (e ∷ es) s = Fits e s.1 × AllFit es (on_buffered e s)

event_lem :
    (e : Event) (f : Frame) {b : Buffer}
    → IsRing b
    → Fits e b
    → (on_event e (f, contents b) ≡ ((on_buffered e (f, b)).0, contents (on_buffered e (f, b)).1))
      × IsRing (on_buffered e (f, b)).1
unfolding on_event on_buffered
event_lem (arrive bytes) f {b} v h =
    let (queued, ring, _) = do_recv-append bytes v h in (ap (λ q. (f, q)) (sym queued), ring)
event_lem ticked f {b} v h =
    let (got, left, ring) = recv-take v (wanted f) in
    (λ i. (rounds (length (sym got i)) f (sym got i), sym left i), ring)

-- The connection over its ring buffer behaves as over an unbounded queue of bytes, whatever the
-- order of arrivals and ticks, as long as no delivery is longer than what `DoRecv` asks for: the
-- same packets are executed, the bytes left are the same, and the buffer stays well formed.
pub run_buffered-run :
    (es : List Event) (f : Frame) {b : Buffer}
    → IsRing b
    → AllFit es (f, b)
    → (run es (f, contents b) ≡ ((run_buffered es (f, b)).0, contents (run_buffered es (f, b)).1))
      × IsRing (run_buffered es (f, b)).1
unfolding run run_buffered
run_buffered-run [] f v h = (refl, v)
run_buffered-run (e ∷ es) f {b} v h =
    let (same, ring) = event_lem e f v h.0 in
    let (later, still) = run_buffered-run es (on_buffered e (f, b)).0 ring h.1 in
    (ap (run es) same ∙ later, still)

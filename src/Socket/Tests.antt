-- ===== src/Socket/Tests.antt =====
-- The buffers of src/socket.cpp at concrete inputs.
use etheos.Base.{◌≡◌, refl, some, none, List, [], ◌∷◌, arith}
use etheos.Client.Frame.{Event, arrive, ticked, new_frame, run}
use etheos.Socket.{Buffer, recv, send}
use etheos.Socket.Contents.{contents, IsRing}
use etheos.Socket.Stream.{on_buffered, run_buffered, run_buffered-run}

-- Three bytes, 4, 1 and 2, that go round the end.
abbrev wrapped : Buffer
wrapped = record { bytes = 1 ∷ 2 ∷ 3 ∷ 4 ∷ []; gpos = 2; ppos = 1; used = 3 }

abbrev wrapped-IsRing : IsRing wrapped
wrapped-IsRing = record {
  log = 2;
  size = refl;
  got = omega arith;
  room = omega arith;
  placed = refl;
}

recv_two : recv 2 wrapped ≡ (4 ∷ 1 ∷ [], record wrapped { gpos = 0; used = 1 })
unfolding recv
recv_two = refl

send_one :
    send (9 ∷ []) wrapped
    ≡ some (record { bytes = 1 ∷ 2 ∷ 9 ∷ 4 ∷ []; gpos = 2; ppos = 2; used = 4 })
unfolding send
send_one = refl

send_two : send (9 ∷ 9 ∷ []) wrapped ≡ none
unfolding send
send_two = refl

-- A packet with one byte of data behind its length, in two deliveries to a ring of four places.
abbrev deliveries : List Event
deliveries = arrive (3 ∷ 254 ∷ 5 ∷ []) ∷ ticked ∷ ticked ∷ arrive (6 ∷ []) ∷ ticked ∷ []

abbrev empty_ring : Buffer
empty_ring = record { bytes = 0 ∷ 0 ∷ 0 ∷ 0 ∷ []; gpos = 0; ppos = 0; used = 0 }

abbrev empty_ring-IsRing : IsRing empty_ring
empty_ring-IsRing = record {
  log = 2;
  size = refl;
  got = omega arith;
  room = omega arith;
  placed = refl;
}

run_buffered-run_example :
    (run deliveries (new_frame, contents empty_ring) ≡ (
      (run_buffered deliveries (new_frame, empty_ring)).0,
      contents (run_buffered deliveries (new_frame, empty_ring)).1,
    ))
    × IsRing (run_buffered deliveries (new_frame, empty_ring)).1
unfolding on_buffered new_frame
run_buffered-run_example =
    run_buffered-run deliveries new_frame empty_ring-IsRing
      (omega arith, (tt, (tt, (omega arith, (tt, tt)))))

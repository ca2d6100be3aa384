-- ===== src/Client/Tests.antt =====
-- A connection on concrete bytes.
use etheos.Base.{
  ◌==◌, if◌then◌else◌, ℕ, some, ◌≤◌, ◌≡◌, refl, true, false, List, [], ◌∷◌, ◌++◌, arith,
}
use etheos.Base.Int.{pos}
use etheos.Packet.Cipher.{
  decode, gather, dick_winder, collect_up, flip, collect_down, last_odd, swap_zero,
}
use etheos.Packet.Number.{number, digit, e_number}
use etheos.Packet.Reader.{Reader, ok}
use etheos.Packet.Reader.At.{At}
use etheos.Client.Frame.{Frame, Event, arrive, ticked, new_frame, read_len1, read_data, run}
use etheos.Client.Frame.Parse.{parse}
use etheos.Client.Frame.Stream.{pending, received, run-parse}
use etheos.Client.Frame.Progress.{run-stopped}
use etheos.Client.Sequence.{init_low, init_high}
use etheos.Client.Execute.{Client, close, async_op_pending, add_action, execute}
use etheos.Client.Execute.Safety.{execute_total}
use etheos.Client.Execute.Accept.{
  counted, sequence_code, written, execute-accepts, execute-enforces,
}

abbrev events : List Event
events =
    arrive (4 ∷ 254 ∷ 1 ∷ []) ∷ ticked ∷ ticked ∷ arrive (2 ∷ 3 ∷ 3 ∷ []) ∷ ticked ∷ ticked ∷ []

run-parse_example :
    (run events (new_frame, [])).0.executed
      ++ parse (pending (run events (new_frame, [])).0 ++ (run events (new_frame, [])).1)
    ≡ parse (received events)
run-parse_example = run-parse events

abbrev frame : Frame
frame = record {
  packet_state = read_len1;
  raw_len1 = 0;
  raw_len2 = 0;
  len = 0;
  bytes = [];
  executed = [];
}

number_three : number 4 254 254 254 ≡ 3
unfolding number digit
number_three = refl

abbrev stopped : Frame
stopped = record frame { packet_state = read_data; raw_len1 = 1; raw_len2 = 254 }

run-stopped_example : (run (arrive (4 ∷ 254 ∷ []) ∷ ticked ∷ []) (stopped, 1 ∷ [])).0 ≡ stopped
run-stopped_example = run-stopped (arrive (4 ∷ 254 ∷ []) ∷ ticked ∷ []) stopped (1 ∷ []) refl refl

low : init_low 1000 ≤ 120
unfolding init_low
low = omega arith

high : 120 ≤ init_high 1000
unfolding init_high
high = omega arith

abbrev connection : Client
connection = record {
  connected = true;
  processor = record { emulti_e = 6; emulti_d = 7 };
  sequence = record { seq_start = pos 100; upcoming_seq_start = pos 0; seq = 3 };
  queue = [];
  async_op = true;
}

-- Action 5 of family 2 with the sequence number 103 and a byte 10.
abbrev packet : List ℕ
packet = 133 ∷ 138 ∷ 130 ∷ 232 ∷ []

execute_total_example : (c' : Client) × (execute true connection packet ≡ ok c')
execute_total_example = execute_total true connection packet (omega arith)

decoded : decode (connection.processor) packet ≡ some (5 ∷ 2 ∷ 104 ∷ 10 ∷ [])
unfolding decode gather dick_winder collect_up flip collect_down last_odd swap_zero
decoded = refl

decoded_due : decode (connection.processor) packet ≡ some (5 ∷ 2 ∷ sequence_code 103 ++ 10 ∷ [])
unfolding decode gather dick_winder collect_up flip collect_down last_odd swap_zero e_number
decoded_due = refl

execute-accepts_example :
    (r : Reader) × (execute true connection packet ≡ ok (add_action r (counted connection)))
    × At r (10 ∷ [])
execute-accepts_example =
    execute-accepts true connection packet 5 2 100 (10 ∷ []) refl (omega arith) decoded_due
      (omega arith) (omega arith) refl refl (omega arith)

abbrev late : Client
late = record connection {
  sequence = record { seq_start = pos 100; upcoming_seq_start = pos 0; seq = 4 };
}

decoded_late : decode (late.processor) packet ≡ some (5 ∷ 2 ∷ written 104 103 ++ 10 ∷ [])
unfolding decode gather dick_winder collect_up flip collect_down last_odd swap_zero e_number
decoded_late = refl

-- The packet has 103, and 104 is due.
execute-enforces_example :
    (r : Reader) × (execute true late packet
      ≡ ok (
          if 103 == 104
          then add_action r (counted late)
          else close (async_op_pending false (counted late))))
    × At r (10 ∷ [])
execute-enforces_example =
    execute-enforces late packet 5 2 100 103 (10 ∷ []) refl (omega arith) decoded_late (omega arith)
      (omega arith) refl refl (omega arith) (omega arith)

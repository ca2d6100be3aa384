-- ===== src/Client/Frame/Stream.antt =====
-- src/eoclient.cpp, `EOClient::Tick`: however the bytes are split among arrivals and ticks, the
-- packets executed are those of the stream.
use mathlib.Core.List.{append_assoc, append-nil}
use etheos.Base.{
  ℕ, zero, suc, ◌+◌, ◌-◌, ◌<◌, ◌≡◌, refl, sym, ap, ◌∙◌, false, List, [], ◌∷◌, ◌++◌, arith, length,
  take, drop, take_all, drop_all, take-length, take_whole, drop_whole, ne→==, inl, inr, Bool-cases,
  leb, leb→le, leb→gt, take-append-drop, subst, length-take, length-append, ◌==◌,
}
use etheos.Packet.Number.{number}
use etheos.Client.Frame.{
  Frame, PacketState, read_len1, read_len2, read_data, new_frame, on_data, on_len1, on_len2, rounds,
  tick, Event, arrive, ticked, on_event, run,
}
use etheos.Client.Frame.Parse.{parse, parse_complete}

-- The bytes that have been taken of a packet that is not complete.
abbrev pub pending_in : PacketState → Frame → List ℕ
pending_in read_len1 f = []
pending_in read_len2 f = f.raw_len1 ∷ []
pending_in read_data f = f.raw_len1 ∷ f.raw_len2 ∷ f.bytes

abbrev pub pending : Frame → List ℕ
pending f = pending_in f.packet_state f

abbrev pub Counts : PacketState → Frame → Type 0
Counts read_len1 f = f.bytes ≡ []
Counts read_len2 f = f.bytes ≡ []
Counts read_data f =
    (f.len + length f.bytes ≡ number f.raw_len1 f.raw_len2 254 254) × (f.len ≡ 0 → f.bytes ≡ [])

-- `length` counts the bytes of the packet that are still to come.
abbrev pub IsCounting : Frame → Type 0
IsCounting f = Counts f.packet_state f

-- The packets executed, followed by those in the bytes taken, buffered and still to arrive.
abbrev pub outcome : Frame × List ℕ → List ℕ → List (List ℕ)
outcome (f, inbox) rest = f.executed ++ parse (pending f ++ (inbox ++ rest))

-- A tick keeps the count, and what the stream will come to.
abbrev pub KeepsOutcome : Frame → List ℕ → Type 0
KeepsOutcome f inbox =
    IsCounting f
    → IsCounting (tick f inbox).0
      × ((rest : List ℕ) → outcome (tick f inbox) rest ≡ outcome (f, inbox) rest)

abbrev pub frame : PacketState → ℕ → ℕ → ℕ → List ℕ → List (List ℕ) → Frame
frame s a b n bytes executed = record {
  packet_state = s;
  raw_len1 = a;
  raw_len2 = b;
  len = n;
  bytes = bytes;
  executed = executed;
}

tick_len1 :
    (a b n : ℕ) (bytes : List ℕ) (executed : List (List ℕ)) (inbox : List ℕ)
    → KeepsOutcome (frame read_len1 a b n bytes executed) inbox
unfolding tick on_len1
tick_len1 a b n bytes executed [] h = (h, λ _. refl)
tick_len1 a b n bytes executed (c ∷ inbox) h = (h, λ _. refl)

tick_len2 :
    (a b n : ℕ) (bytes : List ℕ) (executed : List (List ℕ)) (inbox : List ℕ)
    → KeepsOutcome (frame read_len2 a b n bytes executed) inbox
unfolding tick on_len2
tick_len2 a b n bytes executed [] h = (h, λ _. refl)
tick_len2 a b n bytes executed (c ∷ inbox) h =
    ((omega (arith, ap length h), λ _. h), λ _. rw h refl)

rounds_over : (fuel : ℕ) (f : Frame) → rounds fuel f [] ≡ f
unfolding rounds
rounds_over zero f = refl
rounds_over (suc fuel) f = refl

-- The last bytes of a packet, of which some were still to come.
pub tick_complete :
    (a b c : ℕ) (bytes d rest : List ℕ) (executed : List (List ℕ))
    → tick (frame read_data a b (suc (length d)) bytes executed) (c ∷ d ++ rest)
      ≡ (frame read_len1 a b 0 [] (executed ++ (bytes ++ c ∷ d) ∷ []), rest)
unfolding tick on_data
tick_complete a b c bytes d rest executed =
    let none_left : suc (length d) - suc (length d) ≡ 0 = omega arith in
    rw (take_all d rest, drop_all d rest, take-length d, none_left)

-- Fewer bytes than are still to come.
tick_partial :
    (a b c n : ℕ) (bytes d : List ℕ) (executed : List (List ℕ))
    → length d < n
    → tick (frame read_data a b (suc n) bytes executed) (c ∷ d)
      ≡ (frame read_data a b (n - length d) (bytes ++ c ∷ d) executed, [])
unfolding tick on_data
tick_partial a b c n bytes d executed h =
    let more : (n - length d == 0) ≡ false = ne→== (n - length d) 0 (omega arith) in
    let less : suc n - suc (length d) ≡ n - length d = omega arith in
    rw
      (
        take_whole n d (omega arith),
        take_whole n d (omega arith),
        drop_whole n d (omega arith),
        less,
        more,
      )
      (ap (λ f. (f, [])) (rounds_over (length d) _))

complete-KeepsOutcome :
    (a b c : ℕ) (bytes d more : List ℕ) (executed : List (List ℕ))
    → KeepsOutcome (frame read_data a b (suc (length d)) bytes executed) (c ∷ d ++ more)
complete-KeepsOutcome a b c bytes d more executed h =
    let packet = bytes ++ c ∷ d in
    let sized : number a b 254 254 ≡ length packet =
      omega (arith, h.0, length-append bytes (c ∷ d)) in
    let some_bytes : 0 < length packet = omega (arith, length-append bytes (c ∷ d)) in
    rw (tick_complete a b c bytes d more executed) (
      refl,
      λ rest.
          append_assoc executed (packet ∷ []) (parse (more ++ rest))
          ∙ ap (◌++◌ executed) (
              sym (parse_complete a b packet (more ++ rest) sized some_bytes)
              ∙ ap (λ xs. parse (a ∷ b ∷ xs))
                  (append_assoc bytes (c ∷ d) (more ++ rest)
                    ∙ ap (λ xs. bytes ++ c ∷ xs) (sym (append_assoc d more rest)))),
    )

partial-KeepsOutcome :
    (a b c n : ℕ) (bytes d : List ℕ) (executed : List (List ℕ))
    → length d < n
    → KeepsOutcome (frame read_data a b (suc n) bytes executed) (c ∷ d)
partial-KeepsOutcome a b c n bytes d executed less h =
    rw (tick_partial a b c n bytes d executed less) (
      (omega (arith, h.0, length-append bytes (c ∷ d)), λ e. absurd (omega arith)),
      λ rest. ap (λ xs. executed ++ parse (a ∷ b ∷ xs)) (append_assoc bytes (c ∷ d) rest),
    )

tick_data :
    (a b n : ℕ) (bytes : List ℕ) (executed : List (List ℕ)) (inbox : List ℕ)
    → KeepsOutcome (frame read_data a b n bytes executed) inbox
unfolding tick
tick_data a b zero bytes executed inbox = λ h. (h, λ _. refl)
tick_data a b (suc n) bytes executed [] = λ h. (h, λ _. refl)
tick_data a b (suc n) bytes executed (c ∷ inbox) = elim (Bool-cases (leb n (length inbox))) [
  | inl enough ↦
      subst (λ z. KeepsOutcome (frame read_data a b (suc n) bytes executed) (c ∷ z))
        (take-append-drop n inbox)
        (subst
          (λ k.
            KeepsOutcome (frame read_data a b (suc k) bytes executed)
              (c ∷ take n inbox ++ drop n inbox))
          (omega (arith, length-take n inbox, leb→le n (length inbox) enough))
          (complete-KeepsOutcome a b c bytes (take n inbox) (drop n inbox) executed))
  | inr short ↦ partial-KeepsOutcome a b c n bytes inbox executed (leb→gt n (length inbox) short)
]

tick-KeepsOutcome : (f : Frame) (inbox : List ℕ) → KeepsOutcome f inbox
tick-KeepsOutcome f = by_state f.packet_state f.raw_len1 f.raw_len2 f.len f.bytes f.executed
  where
    by_state :
        (s : PacketState) (a b n : ℕ) (bytes : List ℕ) (executed : List (List ℕ)) (inbox : List ℕ)
        → KeepsOutcome (frame s a b n bytes executed) inbox
    by_state read_len1 = tick_len1
    by_state read_len2 = tick_len2
    by_state read_data = tick_data

-- The bytes that arrive over a history.
abbrev pub received : List Event → List ℕ
received [] = []
received (arrive bytes ∷ es) = bytes ++ received es
received (ticked ∷ es) = received es

run-outcome :
    (es : List Event) (f : Frame) (inbox rest : List ℕ)
    → IsCounting f
    → outcome (run es (f, inbox)) rest ≡ outcome (f, inbox) (received es ++ rest)
unfolding run on_event
run-outcome [] f inbox rest h = refl
run-outcome (arrive bytes ∷ es) f inbox rest h =
    run-outcome es f (inbox ++ bytes) rest h
    ∙ ap (λ xs. f.executed ++ parse (pending f ++ xs))
        (append_assoc inbox bytes (received es ++ rest)
          ∙ ap (◌++◌ inbox) (sym (append_assoc bytes (received es) rest)))
run-outcome (ticked ∷ es) f inbox rest h =
    let kept = tick-KeepsOutcome f inbox h in
    run-outcome es (tick f inbox).0 (tick f inbox).1 rest kept.0 ∙ kept.1 (received es ++ rest)

-- However the bytes of a connection are split among arrivals and ticks, the packets executed so far,
-- followed by those in the bytes still held, are the packets of the whole stream.
pub run-parse :
    (es : List Event)
    → let (f, inbox) = run es (new_frame, []) in
      f.executed ++ parse (pending f ++ inbox) ≡ parse (received es)
unfolding new_frame
run-parse es =
    let (f, inbox) = run es (new_frame, []) in
    ap (λ xs. f.executed ++ parse (pending f ++ xs)) (sym (append-nil inbox))
    ∙ run-outcome es new_frame [] [] refl
    ∙ ap parse (append-nil (received es))

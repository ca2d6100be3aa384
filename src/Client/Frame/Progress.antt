-- ===== src/Client/Frame/Progress.antt =====
-- src/eoclient.cpp, `EOClient::Tick`: when a packet is executed, and when none ever will be.
use etheos.Base.{ℕ, suc, ◌≡◌, refl, ap, ◌∙◌, List, [], ◌∷◌, ◌++◌, length}
use etheos.Packet.Number.{number}
use etheos.Client.Frame.{
  Frame, read_len1, read_data, on_len1, on_len2, tick, wanted, Event, arrive, ticked, on_event, run,
}
use etheos.Client.Frame.Stream.{frame, tick_complete}

-- Where the next byte is the first of a packet whose length bytes decode to the length of its data,
-- at least 1, and all of it is buffered, three ticks execute the packet and leave what stands
-- behind it.
pub run-three :
    (a b c x y n : ℕ) (payload rest : List ℕ) (executed : List (List ℕ))
    → number a b 254 254 ≡ suc (length payload)
    → run
        (ticked ∷ ticked ∷ ticked ∷ [])
        (frame read_len1 x y n [] executed, a ∷ b ∷ c ∷ payload ++ rest)
      ≡ (frame read_len1 a b 0 [] (executed ++ (c ∷ payload) ∷ []), rest)
unfolding run on_event tick on_len1 on_len2
run-three a b c x y n payload rest executed e = rw e (tick_complete a b c [] payload rest executed)

tick_stopped :
    (f : Frame) (inbox : List ℕ)
    → f.packet_state ≡ read_data
    → f.len ≡ 0
    → tick f inbox ≡ (f, inbox)
unfolding tick
tick_stopped f inbox s z = rw (s, z, wanted)

-- A connection that waits for the data of a packet of length 0 has stopped for good: whatever
-- arrives and however often the server ticks, no packet is executed any more.
pub run-stopped :
    (es : List Event) (f : Frame) (inbox : List ℕ)
    → f.packet_state ≡ read_data
    → f.len ≡ 0
    → (run es (f, inbox)).0 ≡ f
unfolding run on_event
run-stopped [] f inbox s z = refl
run-stopped (arrive bytes ∷ es) f inbox s z = run-stopped es f (inbox ++ bytes) s z
run-stopped (ticked ∷ es) f inbox s z =
    ap (λ st. (run es st).0) (tick_stopped f inbox s z) ∙ run-stopped es f inbox s z

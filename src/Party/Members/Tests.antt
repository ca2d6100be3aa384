-- ===== src/Party/Members/Tests.antt =====
-- Two parties: 10 has the members 1, 2 and 3, and 20 has 4 and 5. 6 has asked 1 to join.
use etheos.Base.{◌≡◌, refl, true, [], ◌∷◌, ◌||◌, ◌==◌, arith, if◌then◌else◌}
use etheos.Party.Members.{Parties, party_accept, packet_remove, leave, leave_own, join_or_new}
use etheos.Party.Members.Kept.{occurs, IsKept, party_accept-IsKept, packet_remove-breaks}

abbrev groups : Parties
groups = record {
  party = λ j. if j == 1 || j == 2 || j == 3 then 10 else if j == 4 || j == 5 then 20 else 0;
  members = λ p. if p == 10 then 1 ∷ 2 ∷ 3 ∷ [] else if p == 20 then 4 ∷ 5 ∷ [] else [];
  leader = λ p. if p == 10 then 1 else 4;
  trust_send = λ j. if j == 6 then 1 else if j == 2 then 6 else 0;
  trust_recv = λ j. if j == 1 then 6 else if j == 6 then 2 else 0;
  send_type = λ j. if j == 6 then 0 else 1;
}

groups-IsKept : IsKept groups
groups-IsKept j p exists = ground arith

accepted : (party_accept 30 true 1 6 groups).members 10 ≡ 1 ∷ 2 ∷ 3 ∷ 6 ∷ []
unfolding party_accept join_or_new leave_own
accepted = refl

invited : (party_accept 30 true 6 2 groups).party 6 ≡ 10
unfolding party_accept join_or_new leave_own
invited = refl

removed : (packet_remove true 2 2 groups).members 10 ≡ 1 ∷ 3 ∷ []
unfolding packet_remove leave
removed = refl

disbanded : (packet_remove true 4 4 groups).party 5 ≡ 0
unfolding packet_remove leave
disbanded = refl

party_accept-IsKept_example : IsKept (party_accept 30 true 1 6 groups)
party_accept-IsKept_example =
    party_accept-IsKept groups 30 1 6 true groups-IsKept (omega arith) refl (omega arith)

packet_remove-breaks_example :
    ((packet_remove true 5 1 groups).party 5 ≡ 0)
    × ((packet_remove true 5 1 groups).members 20 ≡ 4 ∷ 5 ∷ [])
    × (occurs 5 ((packet_remove true 5 1 groups).members 20) ≡ 1)
    × ¬ IsKept (packet_remove true 5 1 groups)
packet_remove-breaks_example =
    packet_remove-breaks groups 1 5 groups-IsKept (omega arith) refl refl (omega arith)
      (omega arith)

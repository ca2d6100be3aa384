-- ===== src/Party/Members.antt =====
-- src/party.cpp and src/handlers/Party.cpp: who is in which party. A character is its player id, a
-- `Party *` a number, with 0 for none. Packets and hit points are left out. The members of a party
-- that does not exist are [].
pub mod Kept
mod Tests
use etheos.Base.{
  ℕ, ◌+◌, Bool, true, false, not, List, [], ◌∷◌, ◌++◌, ◌&&◌, ◌==◌, ltb, length, if◌then◌else◌,
}

-- The `party` and the requests of each character; the `members` and the `leader` of each party.
pub record Parties : Type 0 where
  pub party : ℕ → ℕ
  pub members : ℕ → List ℕ
  pub leader : ℕ → ℕ
  pub trust_send : ℕ → ℕ
  pub trust_recv : ℕ → ℕ
  pub send_type : ℕ → ℕ

-- `PartyRequestType`.
abbrev pub request_join : ℕ
request_join = 0

abbrev pub request_invite : ℕ
request_invite = 1

-- A field of one object is assigned.
abbrev pub assign : {A : Type 0} → (ℕ → A) → ℕ → A → ℕ → A
assign f i v j = if j == i then v else f j

-- `Party::Party`, where `new` gives the address `p`.
abbrev pub new_party : ℕ → ℕ → ℕ → Parties → Parties
new_party p first other s = record s {
  party = assign (assign s.party first p) other p;
  members = assign s.members p (first ∷ other ∷ []);
  leader = assign s.leader p first;
}

-- `Party::Join`.
abbrev pub join : ℕ → ℕ → Parties → Parties
join p c s = record s {
  party = assign s.party c p;
  members = assign s.members p (s.members p ++ c ∷ []);
}

-- The loop of `Leave` over the members.
abbrev pub erase_member : ℕ → List ℕ → List ℕ
erase_member c [] = []
erase_member c (m ∷ ms) = if m == c then ms else m ∷ erase_member c ms

-- The loop of the destructor over the members.
abbrev pub clear_party : List ℕ → (ℕ → ℕ) → ℕ → ℕ
clear_party [] party = party
clear_party (m ∷ ms) party = clear_party ms (assign party m 0)

-- `Party::~Party`.
abbrev pub disband : ℕ → Parties → Parties
disband p s = record s {
  party = clear_party (s.members p) s.party;
  members = assign s.members p [];
}

-- `Party::Leave`.
unfoldable pub leave : ℕ → ℕ → Parties → Parties
leave p c s =
    if ltb 2 (length (s.members p)) && not (c == s.leader p)
    then record s {
      members = assign s.members p (erase_member c (s.members p));
      party = assign s.party c 0;
    }
    else disband p s

-- A character leaves the party that it is in.
unfoldable pub leave_own : ℕ → Parties → Parties
unfolding leave
leave_own c s = if s.party c == 0 then s else leave (s.party c) c s

-- One that has no party joins that of `host`, or makes one with it; `new` would give `p`.
unfoldable pub join_or_new : ℕ → ℕ → ℕ → Parties → Parties
join_or_new p host guest s =
    if s.party host == 0 then new_party p host guest s else join (s.party host) guest s

-- `Party_Accept`: `found` says that the inviter is on the map and in range.
unfoldable pub party_accept : ℕ → Bool → ℕ → ℕ → Parties → Parties
unfolding leave_own join_or_new
party_accept p found c inviter s =
    if not (found && s.trust_send inviter == c && s.trust_recv c == inviter)
    then s
    else (let moved =
          if s.send_type inviter == request_join
          then join_or_new p c inviter (leave_own inviter s)
          else if s.send_type inviter == request_invite
          then join_or_new p inviter c (leave_own c s)
          else s in
        record moved {
          trust_recv = assign moved.trust_recv c 0;
          trust_send = assign moved.trust_send inviter 0;
        })

-- `Packet_Remove`: `online` says that a character has the id, and `leaver` is that character.
unfoldable pub packet_remove : Bool → ℕ → ℕ → Parties → Parties
unfolding leave
packet_remove online leaver c s =
    if s.party c == 0
    then s
    else if not (leaver == c) && not (c == s.leader (s.party c))
    then s
    else if not online
    then s
    else leave (s.party c) leaver s

-- ===== src/Party/Members/Kept.antt =====
-- src/party.cpp: the members of a party and the `party` of a character agree.
use etheos.Base.{
  ℕ, ◌+◌, ◌-◌, ◌≡◌, ◌≢◌, refl, sym, ap, subst, Bool, true, not, List, [], ◌∷◌, ◌++◌, ◌&&◌, arith,
  inl, inr, Bool-cases, ◌==◌, ltb, length, if◌then◌else◌,
}
use etheos.Party.Members.{
  Parties, assign, new_party, join, erase_member, clear_party, leave, leave_own, join_or_new,
  party_accept, packet_remove, request_join, request_invite,
}

-- How often a character is among some members.
abbrev pub occurs : ℕ → List ℕ → ℕ
occurs j [] = 0
occurs j (m ∷ ms) = (if m == j then 1 else 0) + occurs j ms

-- A character is once among the members of its `party`, and in no other party.
abbrev pub IsKept : Parties → Type 0
IsKept s = (j p : ℕ) → p ≢ 0 → occurs j (s.members p) ≡ (if s.party j == p then 1 else 0)

occurs-push :
    (j c : ℕ) (ms : List ℕ) → occurs j (ms ++ c ∷ []) ≡ occurs j ms + (if c == j then 1 else 0)
occurs-push j c [] = ground arith
occurs-push j c (m ∷ ms) = omega (arith, occurs-push j c ms)

occurs-erase_member :
    (j c : ℕ) (ms : List ℕ)
    → occurs j (erase_member c ms) ≡ (if j == c then occurs j ms - 1 else occurs j ms)
occurs-erase_member j c [] = ground arith
occurs-erase_member j c (m ∷ ms) = ground (arith, occurs-erase_member j c ms)

clear_party_zero : (ms : List ℕ) (f : ℕ → ℕ) (j : ℕ) → f j ≡ 0 → clear_party ms f j ≡ 0
clear_party_zero [] f j e = e
clear_party_zero (m ∷ ms) f j e = clear_party_zero ms (assign f m 0) j (ground arith)

clear_party_lem :
    (ms : List ℕ) (f : ℕ → ℕ) (j : ℕ) → clear_party ms f j ≡ (if occurs j ms == 0 then f j else 0)
clear_party_lem [] f j = refl
clear_party_lem (m ∷ ms) f j = ground (arith, clear_party_lem ms (assign f m 0) j)

leave-IsKept : (s : Parties) (c : ℕ) → IsKept s → s.party c ≢ 0 → IsKept (leave (s.party c) c s)
unfolding leave
leave-IsKept s c h some_party j p exists =
    elim (Bool-cases (ltb 2 (length (s.members (s.party c))) && not (c == s.leader (s.party c)))) [
      | inl stays ↦ rw stays (
          ground (
            arith,
            h j p exists,
            h j (s.party c) some_party,
            occurs-erase_member j c (s.members (s.party c)),
          ))
      | inr ends ↦ rw ends (
          ground (
            arith,
            h j p exists,
            h j (s.party c) some_party,
            clear_party_lem (s.members (s.party c)) s.party j,
          ))
    ]

leave-freed : (s : Parties) (c q : ℕ) → s.members q ≡ [] → (leave (s.party c) c s).members q ≡ []
unfolding leave
leave-freed s c q e =
    elim (Bool-cases (ltb 2 (length (s.members (s.party c))) && not (c == s.leader (s.party c)))) [
      | inl stays ↦ rw stays (elim (Bool-cases (q == s.party c)) [
        | inl same ↦ ground (arith, e, same)
        | inr other ↦ ground (arith, e, other)
      ])
      | inr ends ↦ rw ends (ground (arith, e))
    ]

new_party-IsKept :
    (s : Parties) (p a b : ℕ)
    → IsKept s
    → p ≢ 0
    → s.members p ≡ []
    → a ≢ b
    → s.party a ≡ 0
    → s.party b ≡ 0
    → IsKept (new_party p a b s)
new_party-IsKept s p a b h real free distinct out_a out_b j q exists =
    let empty : occurs j (s.members p) ≡ 0 = ap (occurs j) free in
    ground (arith, h j q exists, h j p real, empty, out_a, out_b)

join-IsKept : (s : Parties) (p c : ℕ) → IsKept s → p ≢ 0 → s.party c ≡ 0 → IsKept (join p c s)
join-IsKept s p c h real out j q exists =
    ground (arith, h j q exists, h j p real, out, occurs-push j c (s.members p))

leave_own-IsKept : (s : Parties) (c : ℕ) → IsKept s → IsKept (leave_own c s)
unfolding leave_own
leave_own-IsKept s c h = elim (Bool-cases (s.party c == 0)) [
  | inl alone ↦ rw alone h
  | inr member ↦ rw member (leave-IsKept s c h (ground (arith, member)))
]

leave_own-leaves : (s : Parties) (c : ℕ) → IsKept s → (leave_own c s).party c ≡ 0
unfolding leave_own leave
leave_own-leaves s c h = elim (Bool-cases (s.party c == 0)) [
  | inl alone ↦ rw alone (ground (arith, alone))
  | inr member ↦
      elim (Bool-cases
        (ltb 2 (length (s.members (s.party c))) && not (c == s.leader (s.party c)))) [
          | inl stays ↦ rw (member, stays) (ground arith)
          | inr ends ↦
              rw (member, ends)
                (ground (
                  arith,
                  h c (s.party c) (ground (arith, member)),
                  clear_party_lem (s.members (s.party c)) s.party c,
                ))
        ]
]

leave_own-freed : (s : Parties) (c q : ℕ) → s.members q ≡ [] → (leave_own c s).members q ≡ []
unfolding leave_own
leave_own-freed s c q e = elim (Bool-cases (s.party c == 0)) [
  | inl alone ↦ rw alone e
  | inr member ↦ rw member (leave-freed s c q e)
]

join_or_new-IsKept :
    (s : Parties) (p host guest : ℕ)
    → IsKept s
    → p ≢ 0
    → s.members p ≡ []
    → host ≢ guest
    → s.party guest ≡ 0
    → IsKept (join_or_new p host guest s)
unfolding join_or_new
join_or_new-IsKept s p host guest h real free distinct out = elim (Bool-cases (s.party host == 0)) [
  | inl alone ↦
      rw alone (new_party-IsKept s p host guest h real free distinct (ground (arith, alone)) out)
  | inr member ↦ rw member (join-IsKept s (s.party host) guest h (ground (arith, member)) out)
]

-- `Party_Accept` keeps the parties: if each character is once among the members of its party and in
-- no other, so it is after the request is accepted, also where the one who moves leaves another party
-- or one that then ends. (The two characters differ; a new party stands where no party is, and the
-- address is not null.)
pub party_accept-IsKept :
    (s : Parties) (p c inviter : ℕ) (found : Bool)
    → IsKept s
    → p ≢ 0
    → s.members p ≡ []
    → c ≢ inviter
    → IsKept (party_accept p found c inviter s)
unfolding party_accept
party_accept-IsKept s p c inviter found h real free distinct =
    elim (Bool-cases (not (found && s.trust_send inviter == c && s.trust_recv c == inviter))) [
      | inl refused ↦ rw refused h
      | inr asked ↦ elim (Bool-cases (s.send_type inviter == request_join)) [
        | inl joins ↦
            rw (asked, joins)
              (join_or_new-IsKept (leave_own inviter s) p c inviter (leave_own-IsKept s inviter h)
                real (leave_own-freed s inviter p free) distinct (leave_own-leaves s inviter h))
        | inr others ↦ elim (Bool-cases (s.send_type inviter == request_invite)) [
          | inl invites ↦
              rw (asked, others, invites)
                (join_or_new-IsKept (leave_own c s) p inviter c (leave_own-IsKept s c h) real
                  (leave_own-freed s c p free) (λ e. distinct (sym e)) (leave_own-leaves s c h))
          | inr unknown ↦ rw (asked, others, unknown) h
        ]
      ]
    ]

-- `Packet_Remove` keeps them as well, where the one who is removed is in the party of the sender.
pub packet_remove-IsKept :
    (s : Parties) (c leaver : ℕ) (online : Bool)
    → IsKept s
    → s.party leaver ≡ s.party c
    → IsKept (packet_remove online leaver c s)
unfolding packet_remove
packet_remove-IsKept s c leaver online h together = elim (Bool-cases (s.party c == 0)) [
  | inl alone ↦ rw alone h
  | inr member ↦ elim (Bool-cases (not (leaver == c) && not (c == s.leader (s.party c)))) [
    | inl refused ↦ rw (member, refused) h
    | inr allowed ↦ elim (Bool-cases (not online)) [
      | inl offline ↦ rw (member, allowed, offline) h
      | inr there ↦
          rw (member, allowed, there)
            (subst (λ p. IsKept (leave p leaver s)) together
              (leave-IsKept s leaver h (ground (arith, together, member))))
    ]
  ]
]

-- The leader of a party of more than two who names a member of another party in `Packet_Remove`
-- breaks it: that one's `party` is set to null, while the other party still has all its members, that
-- one once among them, so that the parties are no longer kept.
pub packet_remove-breaks :
    (s : Parties) (c leaver : ℕ)
    → IsKept s
    → s.party c ≢ 0
    → s.leader (s.party c) ≡ c
    → ltb 2 (length (s.members (s.party c))) ≡ true
    → s.party leaver ≢ 0
    → s.party leaver ≢ s.party c
    → let s' = packet_remove true leaver c s in
      (s'.party leaver ≡ 0)
      × (s'.members (s.party leaver) ≡ s.members (s.party leaver))
      × (occurs leaver (s'.members (s.party leaver)) ≡ 1)
      × ¬ IsKept s'
unfolding packet_remove leave
packet_remove-breaks s c leaver h grouped leads many elsewhere apart =
    let once = h leaver (s.party leaver) elsewhere in
    (
      ground (arith, grouped, leads, many),
      ground (arith, grouped, leads, many, apart),
      ground (arith, once, grouped, leads, many, apart),
      λ kept.
          ground (arith, once, kept leaver (s.party leaver) elsewhere, grouped, leads, many, apart),
    )

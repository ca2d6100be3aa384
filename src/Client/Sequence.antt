-- ===== src/Client/Sequence.antt =====
-- src/eoclient.cpp: the sequence numbers of a connection. The random choices of `util::rand` are
-- arguments. A difference taken to `unsigned char` is its remainder by 256.
use etheos.Base.{ℕ, ◌+◌, ◌-◌, ◌*◌, ◌/◌, ◌%◌, ◌^◌, ◌≤◌, ◌<◌, ◌≡◌, arith}
use etheos.Base.Int.{ℤ, pos, negsuc, ◌+ℤ◌, wrap32}

pub record Sequence : Type 0 where
  pub seq_start : ℤ
  pub upcoming_seq_start : ℤ
  pub seq : ℕ

-- As `EOClient::Initialize` sets it.
unfoldable pub new_sequence : Sequence
new_sequence = record { seq_start = pos 0; upcoming_seq_start = negsuc 0; seq = 0 }

-- `chosen` is `util::rand(0, 1757)`.
unfoldable pub init_new_sequence : ℕ → Sequence → Sequence
init_new_sequence chosen s = record s { seq_start = pos chosen }

unfoldable pub ping_new_sequence : ℕ → Sequence → Sequence
ping_new_sequence chosen s = record s { upcoming_seq_start = pos chosen }

unfoldable pub pong_new_sequence : Sequence → Sequence
pong_new_sequence s = record s { seq_start = s.upcoming_seq_start }

-- `chosen` is `util::rand(0, 240)`.
unfoldable pub account_reply_new_sequence : ℕ → Sequence → Sequence
account_reply_new_sequence chosen s = record s { seq_start = pos chosen }

unfoldable pub gen_sequence : Sequence → ℤ × Sequence
gen_sequence s = (wrap32 (s.seq_start +ℤ pos s.seq), record s { seq = (s.seq + 1) % 10 })

unfoldable pub gen_upcoming_sequence : Sequence → ℤ × Sequence
gen_upcoming_sequence s =
    (wrap32 (s.upcoming_seq_start +ℤ pos s.seq), record s { seq = (s.seq + 1) % 10 })

-- The limits of the first byte of `GetSeqInitBytes`; the lower one is not below 0.
unfoldable pub init_low : ℕ → ℕ
init_low start = (start + 13 + 6 - 252) / 7

unfoldable pub init_high : ℕ → ℕ
init_high start = (start + 13) / 7

-- `GetSeqInitBytes` at a start of 0 or more, where `s1` is `util::rand(s1_min, s1_max)`.
unfoldable pub seq_init_bytes : ℕ → ℕ → ℕ × ℕ
seq_init_bytes start s1 = let byte = s1 % 256 in (byte, (start + 13 + 256 * byte - byte * 7) % 256)

-- `GetSeqUpdateBytes` at an upcoming start of 0 or more, where `s1` is
-- `util::rand(upcoming, upcoming + 252)`.
unfoldable pub seq_update_bytes : ℕ → ℕ → ℕ × ℕ
seq_update_bytes upcoming s1 =
    let short = s1 % 2 ^ 16 in (short, (short + 256 * upcoming - upcoming) % 256)

-- For a start that `InitNewSequence` chooses, the range of the first byte is not empty, and from any
-- choice in it the client can work out the start: it is 7 times the first byte and the second, less
-- 13. Neither byte is above 252.
pub seq_init_bytes-start :
    (start s1 : ℕ)
    → start ≤ 1757
    → init_low start ≤ s1
    → s1 ≤ init_high start
    → let (b1, b2) = seq_init_bytes start s1 in
      (init_low start ≤ init_high start) × (b1 * 7 + b2 ≡ start + 13) × (b1 ≤ 252) × (b2 ≤ 252)
unfolding init_low init_high seq_init_bytes
seq_init_bytes-start start s1 h low high = omega arith

-- For a start that `PingNewSequence` chooses, the two numbers sent differ by it, and the first fits
-- two digits of the packet codec.
pub seq_update_bytes-start :
    (upcoming s1 : ℕ)
    → upcoming ≤ 1757
    → upcoming ≤ s1
    → s1 ≤ upcoming + 252
    → let (b1, b2) = seq_update_bytes upcoming s1 in
      (b1 ≡ upcoming + b2) × (b1 < 64009) × (b2 ≤ 252)
unfolding seq_update_bytes
seq_update_bytes-start upcoming s1 h low high = omega arith

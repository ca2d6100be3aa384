-- ===== src/Login/Count.antt =====
-- src/loginmanager.cpp: how many logins are under way at once.
use etheos.Base.{
  ℕ, zero, suc, ◌+◌, ◌≤◌, ◌<◌, ◌≡◌, Bool, true, List, [], ◌∷◌, ◌++◌, arith, inl, inr, Bool-cases,
  length, length-append, if◌then◌else◌,
}
use etheos.Login.{
  Request, LoginQueue, is_busy, set_pending, thrown, check_credential, remove_at, complete,
}

-- How many exceptions `Execute` throws behind `_processCount++`.
abbrev pub leaks : ℕ → Request → LoginQueue → ℕ
leaks size c q =
    if is_busy size q then 0 else elim (check_credential size c q).0 [ thrown ↦ 1 | other ↦ 0 ]

-- A client asks, the thread pool comes to the end of a login, or something else begins or ends an
-- operation of a client; with the number of exceptions.
pub data QueueStep (size : ℕ) : ℕ → LoginQueue → LoginQueue → Type 0 where
  ask :
      (c : Request) (q : LoginQueue)
      → QueueStep size (leaks size c q) q (check_credential size c q).1
  done : (i : ℕ) (q : LoginQueue) → i < length q.waiting → QueueStep size 0 q (complete i q)
  mark :
      (client : ℕ) (b : Bool) (q : LoginQueue)
      → QueueStep size 0 q (record q { pending = set_pending client b q.pending })

pub data QueueSteps (size : ℕ) (start : LoginQueue) : ℕ → LoginQueue → Type 0 where
  none_yet : QueueSteps size start 0 start
  after :
      {n k : ℕ} {q r : LoginQueue}
      → QueueSteps size start n q
      → QueueStep size k q r
      → QueueSteps size start (n + k) r

length-remove_at :
    (i : ℕ) (cs : List Request) → i < length cs → length (remove_at i cs) + 1 ≡ length cs
unfolding remove_at
length-remove_at i [] h = absurd (omega arith)
length-remove_at zero (c ∷ cs) h = omega arith
length-remove_at (suc i) (c ∷ cs) h = omega (arith, length-remove_at i cs (omega arith))

-- `_processCount` is the number of the logins under way and of the `n` that were counted in vain.
pub record IsCounted (size n : ℕ) (q : LoginQueue) : Type 0 where
  pub counted : q.process_count ≡ length q.waiting + n
  pub bounded : q.process_count ≤ size

step-IsCounted :
    {size n k : ℕ} {q r : LoginQueue}
    → QueueStep size k q r
    → IsCounted size n q
    → IsCounted size (n + k) r
unfolding check_credential complete
step-IsCounted {size} (ask c q) v = elim (Bool-cases (is_busy size q)) [
  | inl busy ↦ elim (Bool-cases (q.pending c.client)) [
    | inl pending ↦
        rw (busy, pending) (record { counted = omega (arith, v.counted); bounded = v.bounded })
    | inr idle ↦
        rw (busy, idle) (record { counted = omega (arith, v.counted); bounded = v.bounded })
  ]
  | inr free ↦
      let room : q.process_count + 1 ≤ size = ground (arith, free) in
      elim (Bool-cases (q.pending c.client)) [
        | inl pending ↦
            rw (free, pending) (record { counted = omega (arith, v.counted); bounded = room })
        | inr idle ↦
            let one : length (q.waiting ++ c ∷ []) ≡ length q.waiting + 1 =
              length-append q.waiting (c ∷ []) in
            rw (free, idle) (record { counted = omega (arith, one, v.counted); bounded = room })
      ]
]
step-IsCounted (done i q h) v =
    let fewer = length-remove_at i q.waiting h in
    record { counted = omega (arith, fewer, v.counted); bounded = omega (arith, v.bounded) }
step-IsCounted (mark client b q) v = record {
  counted = omega (arith, v.counted);
  bounded = v.bounded;
}

-- Whatever clients ask, whenever logins come to their end, and whichever clients have other operations
-- pending: `_processCount` is at most `LoginQueueSize`, and it is the number of logins under way and
-- of the requests so far that have been counted before `Execute` threw an exception. It never comes
-- down by these: where there were as many of them as `LoginQueueSize`, every further login is refused.
pub steps-IsCounted :
    {size n : ℕ} {start : LoginQueue} {k : ℕ} {q : LoginQueue}
    → QueueSteps size start k q
    → IsCounted size n start
    → IsCounted size (n + k) q × (size ≤ n + k → is_busy size q ≡ true)
steps-IsCounted none_yet v = (
  record { counted = omega (arith, v.counted); bounded = v.bounded },
  λ full. ground (arith, full, v.counted),
)
steps-IsCounted {size} {n} (after {n = a} {k = b} {r = r} earlier step) v =
    let w : IsCounted size (n + a + b) r = step-IsCounted step (steps-IsCounted earlier v).0 in
    (
      record { counted = omega (arith, w.counted); bounded = w.bounded },
      λ full. ground (arith, full, w.counted),
    )

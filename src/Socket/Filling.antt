-- ===== src/Socket/Filling.antt =====
-- src/socket.cpp: putting bytes into a buffer, `Send` and `DoRecv`, adds them at the queue's end.
use native.Mathlib.Nat.{mod-add-mod, add-zero}
use mathlib.Core.List.{append_assoc, append-nil}
use etheos.Base.{
  ℕ, suc, ◌+◌, ◌%◌, ◌^◌, ◌≤◌, ◌<◌, ◌≡◌, refl, sym, ap, ◌∙◌, List, [], ◌∷◌, ◌++◌, arith, length, set,
  length-set,
}
use etheos.Socket.{Buffer, next, put_loop, put}
use etheos.Socket.Window.{behind, behind-set}
use etheos.Socket.Contents.{contents, IsRing, mask-mod}

-- The buffer after one round of the loop.
step : Buffer → ℕ → Buffer
step b c = record b { ppos = next b b.ppos; bytes = set b.bytes (next b b.ppos) c }

put_loop-keeps :
    (cs : List ℕ) (b : Buffer)
    → (length (put_loop b cs).bytes ≡ length b.bytes)
      × ((put_loop b cs).gpos ≡ b.gpos)
      × ((put_loop b cs).used ≡ b.used)
unfolding put_loop step
put_loop-keeps [] b = (refl, refl, refl)
put_loop-keeps (c ∷ cs) b =
    let (l, g, u) = put_loop-keeps cs (step b c) in (l ∙ length-set b.bytes (next b b.ppos) c, g, u)

-- The loop, in a ring that holds `n` bytes and has room.
put_loop-behind :
    (cs : List ℕ) (b : Buffer) (log n cap : ℕ)
    → length b.bytes ≡ cap
    → cap ≡ 2 ^ log
    → b.gpos < cap
    → b.ppos ≡ (b.gpos + n) % cap
    → n + length cs ≤ cap
    → (behind (put_loop b cs).bytes cap b.gpos (n + length cs) ≡ behind b.bytes cap b.gpos n ++ cs)
      × ((put_loop b cs).ppos ≡ (b.gpos + (n + length cs)) % cap)
unfolding put_loop step
put_loop-behind [] b log n cap size pow got placed room = (
  ap (behind b.bytes cap b.gpos) (add-zero n) ∙ sym (append-nil _),
  placed ∙ ap (λ m. (b.gpos + m) % cap) (sym (add-zero n)),
)
put_loop-behind (c ∷ cs) b log n cap size pow got placed room =
    let here = next b b.ppos in
    let at : here ≡ (b.gpos + suc n) % cap =
      mask-mod (length b.bytes) log (b.ppos + 1) (size ∙ pow)
      ∙ ap (λ k. (b.ppos + 1) % k) size
      ∙ ap (λ k. (k + 1) % cap) placed
      ∙ mod-add-mod (b.gpos + n) cap 1
      ∙ ap (λ k. k % cap) (let e : b.gpos + n + 1 ≡ b.gpos + suc n = omega arith in e) in
    let long : suc n + length cs ≡ n + suc (length cs) = omega arith in
    let (rest, end) =
      put_loop-behind cs (step b c) log (suc n) cap (length-set b.bytes here c ∙ size) pow got at
        (omega arith) in
    (
      ap (behind (put_loop (step b c) cs).bytes cap b.gpos) (sym long)
          ∙ rest
          ∙ ap (λ s. s ++ cs)
              (behind-set b.bytes cap b.gpos n c here (omega arith) got (omega arith) at)
          ∙ append_assoc (behind b.bytes cap b.gpos n) (c ∷ []) cs,
      end ∙ ap (λ m. (b.gpos + m) % cap) long,
    )

module _ {b : Buffer} (v : IsRing b) (cs : List ℕ)
    (fits : b.used + length cs ≤ length b.bytes) where
  put_parts :
      (behind (put_loop b cs).bytes (length b.bytes) b.gpos (b.used + length cs) ≡ contents b ++ cs)
      × ((put_loop b cs).ppos ≡ (b.gpos + (b.used + length cs)) % length b.bytes)
  put_parts = put_loop-behind cs b v.log b.used (length b.bytes) refl v.size v.got v.placed fits

  pub contents-put : contents (put b cs) ≡ contents b ++ cs
  contents-put = let (long, got, _) = put_loop-keeps cs b in rw (long, got) (put_parts.0)

  pub put-IsRing : IsRing (put b cs)
  put-IsRing =
      let (long, got, _) = put_loop-keeps cs b in
      record {
        log = v.log;
        size = long ∙ v.size;
        got = omega (arith, long, got, v.got);
        room = omega (arith, long, fits);
        placed = rw (long, got) (put_parts.1);
      }

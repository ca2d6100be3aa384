-- ===== src/Socket/Contents.antt =====
-- src/socket.cpp: each buffer is a queue of bytes. Getting takes them off its front.
use Prim.Native.Nat.{bit_and}
use native.Mathlib.Nat.{mod-lt, mod-add-mod, mod-eq_of_lt, add-zero}
use etheos.Base.{
  ℕ, zero, suc, ◌+◌, ◌-◌, ◌%◌, ◌^◌, ◌≤◌, ◌<◌, ◌≡◌, sym, ap, ◌∙◌, min, List, [], arith, length, take,
  drop,
}
use etheos.Base.Bits.{bit_and_mask}
use etheos.Socket.{Buffer, get_loop, recv}
use etheos.Socket.Window.{
  behind, step_on, length-behind, drop-behind, take-behind, take-min, drop-min,
}

-- The bytes that have been put and not yet got, the oldest first.
abbrev pub contents : Buffer → List ℕ
contents b = behind b.bytes (length b.bytes) b.gpos b.used

-- The length is a power of two, as `SetRecvBuffer` makes sure, and the positions fit together.
pub record IsRing (b : Buffer) : Type 0 where
  pub log : ℕ
  pub size : length b.bytes ≡ 2 ^ log
  pub got : b.gpos < length b.bytes
  pub room : b.used ≤ length b.bytes
  pub placed : b.ppos ≡ (b.gpos + b.used) % length b.bytes

pub mask-mod : (cap log p : ℕ) → cap ≡ 2 ^ log → bit_and p (cap - 1) ≡ p % cap
mask-mod cap log p e = rw e (bit_and_mask log p)

pub get_loop-behind :
    (b : Buffer) (log n p : ℕ)
    → length b.bytes ≡ 2 ^ log
    → p < length b.bytes
    → get_loop b n p ≡ (behind b.bytes (length b.bytes) p n, (p + n) % length b.bytes)
unfolding get_loop
get_loop-behind b log zero p size h =
    ap (λ q. ([], q)) (sym (ap (λ q. q % length b.bytes) (add-zero p) ∙ mod-eq_of_lt h))
get_loop-behind b log (suc n) p size h =
    let cap = length b.bytes in
    let inside : (p + 1) % cap < cap = mod-lt (p + 1) (omega arith) in
    rw (mask-mod cap log (p + 1) size)
      (rw (get_loop-behind b log n ((p + 1) % cap) size inside) (rw (step_on cap p n)))

-- Getting gives the oldest bytes, and leaves the others in order.
pub recv_parts :
    {b : Buffer} (n : ℕ)
    → IsRing b
    → n ≤ b.used
    → (behind b.bytes (length b.bytes) b.gpos n ≡ take n (contents b))
      × (behind b.bytes (length b.bytes) ((b.gpos + n) % length b.bytes) (b.used - n)
          ≡ drop n (contents b))
recv_parts {b} n v h =
    let whole : b.used ≡ n + (b.used - n) = omega arith in
    let cap = length b.bytes in
    (
      sym (
          ap (λ m. take n (behind b.bytes cap b.gpos m)) whole
          ∙ take-behind b.bytes cap b.gpos n (b.used - n)),
      sym (
          ap (λ m. drop n (behind b.bytes cap b.gpos m)) whole
          ∙ drop-behind b.bytes cap b.gpos n (b.used - n) v.got),
    )

placed_after : (cap g u n : ℕ) → n ≤ u → (g + u) % cap ≡ ((g + n) % cap + (u - n)) % cap
placed_after cap g u n h = ap (λ q. q % cap) (omega arith) ∙ sym (mod-add-mod (g + n) cap (u - n))

-- What is left is a ring again.
pub recv_keeps :
    {b : Buffer} (n : ℕ)
    → IsRing b
    → n ≤ b.used
    → IsRing (record b { gpos = (b.gpos + n) % length b.bytes; used = b.used - n })
recv_keeps {b} n v h = record {
  log = v.log;
  size = v.size;
  got =
      mod-lt (b.gpos + n) (let some_room : 0 < length b.bytes = omega (arith, v.got) in some_room);
  room = omega (arith, v.room);
  placed = v.placed ∙ placed_after (length b.bytes) b.gpos b.used n h;
}

module _ {b : Buffer} (v : IsRing b) (wanted : ℕ) where
  recv_lem : recv wanted b ≡ (
    behind b.bytes (length b.bytes) b.gpos (min wanted b.used),
    record b {
      gpos = (b.gpos + min wanted b.used) % length b.bytes;
      used = b.used - min wanted b.used;
    },
  )
  unfolding recv
  recv_lem = rw (get_loop-behind b v.log (min wanted b.used) b.gpos v.size v.got)

  -- `Recv` on a well-formed buffer returns the oldest bytes that it holds, as many as are wanted
  -- or as there are; the others stay, in order, and the buffer stays well formed.
  pub recv-take :
      ((recv wanted b).0 ≡ take wanted (contents b))
      × (contents (recv wanted b).1 ≡ drop wanted (contents b))
      × IsRing (recv wanted b).1
  recv-take =
      let n = min wanted b.used in
      let inside : n ≤ b.used = omega arith in
      let counted : b.used ≡ length (contents b) =
        sym (length-behind b.bytes (length b.bytes) b.gpos b.used) in
      rw recv_lem (
        (recv_parts n v inside).0
            ∙ ap (λ u. take (min wanted u) (contents b)) counted
            ∙ take-min wanted (contents b),
        (recv_parts n v inside).1
            ∙ ap (λ u. drop (min wanted u) (contents b)) counted
            ∙ drop-min wanted (contents b),
        recv_keeps n v inside,
      )

-- ===== src/Gateway/Bytes.antt =====
-- src/net/gateway.c: the helpers of the receive and send rings.
use aspira_broker.Prelude.{
  ℕ, zero, suc, ◌+◌, ◌-◌, ◌%◌, ◌^◌, ◌≤◌, ◌<◌, ◌≡◌, refl, sym, ap, slots_mod, leb→le, ◌∙◌, arith,
  List, [], ◌∷◌, ◌++◌, Buffer, bit_and, size_add, leb, if◌then◌else◌, IsPow2, bit_and-mod, mod_wrap,
  slots, Bool-cases, inl, inr,
}
use mathlib.Core.Path.{ap₂}
use native.Mathlib.Nat.{mod-eq_of_lt, mod-mod, mod-lt, add-zero, zero-add, suc-add, add-mod_right}

-- gw_ring_readable.
unfoldable pub readable : ℕ → ℕ → ℕ → ℕ
readable head tail mask = if leb head tail then tail - head else mask + 1 - head + tail

-- gw_ring_writable: one byte is kept free.
unfoldable pub writable : ℕ → ℕ → ℕ → ℕ
writable head tail mask = mask - readable head tail mask

-- `memcpy` of `n` bytes from index `i` on.
unfoldable pub bytes : Buffer ℕ → ℕ → ℕ → List ℕ
bytes buf i zero = []
bytes buf i (suc n) = buf i ∷ bytes buf (i + 1) n

-- gw_ring_peek: what it copies to `dst`.
unfoldable pub peek : Buffer ℕ → ℕ → ℕ → ℕ → ℕ → List ℕ
unfolding bytes
peek buf head off len mask =
    let pos = bit_and (size_add head off) mask in
    let first = mask + 1 - pos in
    if leb len first then bytes buf pos len else bytes buf pos first ++ bytes buf 0 (len - first)

-- gw_ring_advance.
unfoldable pub advance : ℕ → ℕ → ℕ → ℕ
advance cursor delta mask = bit_and (size_add cursor delta) mask

-- The two indices of a ring of `mask + 1` bytes.
pub record InRing (head tail mask : ℕ) : Type 0 where
  pub pow : IsPow2 (mask + 1)
  pub small : mask + 1 ≤ 2 ^ 32
  pub head_in : head < mask + 1
  pub tail_in : tail < mask + 1

-- The readable and the writable bytes make up the ring but for one, and neither underflows.
pub readable-add-writable :
    (head tail mask : ℕ)
    → InRing head tail mask
    → (readable head tail mask + writable head tail mask ≡ mask)
      × (readable head tail mask ≡ (tail + (mask + 1) - head) % (mask + 1))
unfolding readable writable
readable-add-writable head tail mask v =
    ground (arith, mod_wrap (tail + (mask + 1) - head) (mask + 1))

pub advance-mod :
    (cursor delta mask : ℕ)
    → IsPow2 (mask + 1)
    → cursor + delta < 2 ^ 64
    → bit_and (size_add cursor delta) mask ≡ (cursor + delta) % (mask + 1)
advance-mod cursor delta mask p h =
    let e : size_add cursor delta ≡ cursor + delta = omega arith in
    bit_and-mod (size_add cursor delta) mask p ∙ ap (λ k. k % (mask + 1)) e

readable-lt : (head tail mask : ℕ) → InRing head tail mask → readable head tail mask < mask + 1
unfolding readable
readable-lt head tail mask v = ground arith

-- Advancing the head over readable bytes takes exactly them away.
pub readable-advance :
    (head tail mask n : ℕ)
    → InRing head tail mask
    → n ≤ readable head tail mask
    → (readable (advance head n mask) tail mask + n ≡ readable head tail mask)
      × InRing (advance head n mask) tail mask
unfolding readable advance
readable-advance head tail mask n v h =
    let e = advance-mod head n mask v.pow (omega (arith, v.small, readable-lt head tail mask v)) in
    let bound = readable-lt head tail mask v in
    rw e (
      ground (arith, mod_wrap (head + n) (mask + 1)),
      record { pow = v.pow; small = v.small; head_in = omega arith; tail_in = v.tail_in },
    )

-- Advancing the tail over writable bytes adds exactly them.
pub readable-extend :
    (head tail mask n : ℕ)
    → InRing head tail mask
    → n ≤ writable head tail mask
    → (readable head (advance tail n mask) mask ≡ readable head tail mask + n)
      × InRing head (advance tail n mask) mask
unfolding readable writable advance
readable-extend head tail mask n v h =
    let e = advance-mod tail n mask v.pow (omega (arith, v.small)) in
    rw e (
      ground (arith, mod_wrap (tail + n) (mask + 1)),
      record { pow = v.pow; small = v.small; head_in = v.head_in; tail_in = omega arith },
    )

-- Bytes that do not go round the end.
pub bytes-slots :
    (cap : ℕ) (buf : Buffer ℕ) (i n : ℕ) → i + n ≤ cap → bytes buf i n ≡ slots cap buf i n
unfolding bytes slots
bytes-slots cap buf i zero h = refl
bytes-slots cap buf i (suc n) h =
    ap₂ ◌∷◌ (ap buf (sym (mod-eq_of_lt (omega arith))))
      (bytes-slots cap buf (i + 1) n (omega arith))

pub slots-append :
    (cap : ℕ) (buf : Buffer ℕ) (i n k : ℕ)
    → slots cap buf i n ++ slots cap buf (i + n) k ≡ slots cap buf i (n + k)
unfolding slots
slots-append cap buf i zero k = rw (add-zero, zero-add)
slots-append cap buf i (suc n) k = rw suc-add (
    ap (λ r. buf (i % cap) ∷ r)
      (ap (λ j. slots cap buf (i + 1) n ++ slots cap buf j k) (omega arith)
        ∙ slots-append cap buf (i + 1) n k))

-- The copy in at most two pieces reads the ring byte by byte from the offset on.
pub peek_lem :
    (buf : Buffer ℕ) (head off len mask tail : ℕ)
    → InRing head tail mask
    → off ≤ mask
    → len ≤ mask + 1
    → peek buf head off len mask ≡ slots (mask + 1) buf (head + off) len
unfolding peek
peek_lem buf head off len mask tail v a b =
    let cap = mask + 1 in
    let pos = (head + off) % cap in
    let first = cap - pos in
    let lt : pos < cap = omega (arith, mod-lt (head + off) {m = cap} (omega arith)) in
    let start : pos % cap ≡ (head + off) % cap = mod-mod (head + off) cap in
    rw (advance-mod head off mask v.pow (omega (arith, v.small)))
      (elim (Bool-cases (leb len first)) [
        | inl short ↦ rw short (
            bytes-slots cap buf pos len (omega (arith, leb→le len first short))
            ∙ slots_mod cap buf pos (head + off) len start)
        | inr long ↦
            let rest = len - first in
            let split : first + rest ≡ len = ground arith in
            let round : 0 % cap ≡ (pos + first) % cap =
              sym (add-mod_right 0 cap) ∙ ap (λ k. k % cap) (omega arith) in
            rw long (
              ap₂ ◌++◌ (bytes-slots cap buf pos first (omega arith)) (
                bytes-slots cap buf 0 rest (omega arith)
                ∙ slots_mod cap buf 0 (pos + first) rest round)
              ∙ slots-append cap buf pos first rest
              ∙ ap (slots cap buf pos) split
              ∙ slots_mod cap buf pos (head + off) len start)
      ])

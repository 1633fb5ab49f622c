-- ===== src/Gateway/Send/Stream.antt =====
-- The send ring as a queue of bytes: what waits in it, and what send(2) takes from it.
use native.Mathlib.Nat.{mod-mod, mod-add-mod, add-zero}
use aspira_broker.Prelude.{
  ℕ, ◌+◌, ◌-◌, ◌%◌, ◌^◌, ◌≤◌, ◌<◌, ◌≡◌, ◌≢◌, inl, inr, refl, sym, ap, ◌∙◌, arith, min, some, List,
  [], ◌∷◌, ◌++◌, length, ltb, ◌==◌, if◌then◌else◌, Buffer, write, bit_and, size_add, slots,
  slots_last, slots_mod, append_assoc, append-nil, Bool-cases, ltb→ge, mod_wrap, eq→==, ==→ne,
}
use aspira_broker.Gateway.Bytes.{
  readable, writable, bytes, InRing, advance, advance-mod, bytes-slots, slots-append,
  readable-advance, readable-extend, readable-add-writable,
}
use aspira_broker.Gateway.State.{Conn, ConnState, send_ring_size}
use aspira_broker.Gateway.Send.{
  response_size, send_mask, response_frame, put_bytes, send_to_conn, Sending, flush_send,
}

-- The send indices of a connection.
abbrev pub SendOk : Conn → Type 0
SendOk conn = InRing conn.send_head conn.send_tail send_mask

-- The bytes that wait in the ring, oldest first.
abbrev pub waiting : Conn → List ℕ
waiting conn =
    slots send_ring_size conn.send_buf conn.send_head
      (readable conn.send_head conn.send_tail send_mask)

put_bytes-slots :
    (bs : List ℕ) (buf : Buffer ℕ) (h n pos i : ℕ)
    → (pos + i) % send_ring_size ≡ (h + n) % send_ring_size
    → pos + i + length bs < 2 ^ 63
    → n + length bs ≤ send_ring_size
    → slots send_ring_size (put_bytes buf pos i bs) h (n + length bs)
      ≡ slots send_ring_size buf h n ++ bs
unfolding put_bytes
put_bytes-slots [] buf h n pos i e small room =
    rw add-zero (sym (append-nil (slots send_ring_size buf h n)))
put_bytes-slots (b ∷ bs) buf h n pos i e small room =
    let cap = send_ring_size in
    let k = bit_and (size_add pos i) send_mask in
    let slot : k ≡ (h + n) % cap = advance-mod pos i send_mask (16, refl) (omega arith) ∙ e in
    let next : (pos + (i + 1)) % cap ≡ (h + (n + 1)) % cap =
      ap (λ x. x % cap) (omega arith)
      ∙ sym (mod-add-mod (pos + i) cap 1)
      ∙ ap (λ x. (x + 1) % cap) e
      ∙ mod-add-mod (h + n) cap 1
      ∙ ap (λ x. x % cap) (omega arith) in
    let ih =
      put_bytes-slots bs (write buf k b) h (n + 1) pos (i + 1) next (omega arith) (omega arith) in
    let one : slots cap (write buf k b) h (n + 1) ≡ slots cap buf h n ++ b ∷ [] =
      ap (λ x. slots cap (write buf x b) h (n + 1)) slot
      ∙ slots_last cap buf h (h + n) n b refl (omega arith) in
    ap (slots cap (put_bytes (write buf k b) pos (i + 1) bs) h) (omega arith)
    ∙ ih
    ∙ ap (λ (l : List ℕ). l ++ bs) one
    ∙ append_assoc (slots cap buf h n) (b ∷ []) bs

-- The tail stands behind the bytes that wait.
tail-slot :
    (head tail mask : ℕ)
    → InRing head tail mask
    → tail % (mask + 1) ≡ (head + readable head tail mask) % (mask + 1)
unfolding readable
tail-slot head tail mask v =
    let r = readable head tail mask in
    ground (arith, mod_wrap (head + r) (mask + 1), mod_wrap tail (mask + 1))

-- On sound send indices, a response that fits is appended whole to the bytes that wait, and one that
-- does not changes nothing.
pub send_to_conn_appends :
    (conn : Conn) (resp : List ℕ)
    → SendOk conn
    → length resp ≡ response_size
    → (waiting (send_to_conn conn resp) ≡ (
        if ltb (writable conn.send_head conn.send_tail send_mask) (response_size + 5)
        then waiting conn
        else waiting conn ++ response_frame resp))
      × SendOk (send_to_conn conn resp)
unfolding send_to_conn advance
send_to_conn_appends conn resp v size =
    let h = conn.send_head in
    let t = conn.send_tail in
    elim (Bool-cases (ltb (writable h t send_mask) (response_size + 5))) [
      | inl full ↦ rw full (refl, v)
      | inr room ↦
          let r = readable h t send_mask in
          let fits : 93 ≤ writable h t send_mask = ltb→ge _ _ room in
          let (longer, v') = readable-extend h t send_mask 93 v fits in
          let frame = response_frame resp in
          let total = readable-add-writable h t send_mask v in
          let stored =
            put_bytes-slots frame conn.send_buf h r t 0 (rw add-zero (tail-slot h t send_mask v))
              (omega (arith, v.tail_in, size)) (omega (arith, size, fits, total.0)) in
          let count : readable h (advance t 93 send_mask) send_mask ≡ r + length frame =
            omega (arith, longer, size) in
          rw room
            (ap (slots send_ring_size (put_bytes conn.send_buf t 0 frame) h) count ∙ stored, v')
    ]

-- The first bytes that wait, and the rest from the slot behind them.
take-waiting :
    (buf : Buffer ℕ) (pos n left all : ℕ)
    → pos + n ≤ send_ring_size
    → left + n ≡ all
    → bytes buf pos n ++ slots send_ring_size buf (bit_and (size_add pos n) send_mask) left
      ≡ slots send_ring_size buf pos all
take-waiting buf pos n left all fits e =
    let cap = send_ring_size in
    let pos' = bit_and (size_add pos n) send_mask in
    let behind : pos' % cap ≡ (pos + n) % cap =
      ap (λ x. x % cap) (advance-mod pos n send_mask (16, refl) (omega arith))
      ∙ mod-mod (pos + n) cap in
    ap (λ (l : List ℕ). l ++ slots cap buf pos' left) (bytes-slots cap buf pos n fits)
    ∙ ap (λ (l : List ℕ). slots cap buf pos n ++ l) (slots_mod cap buf pos' (pos + n) left behind)
    ∙ slots-append cap buf pos n left
    ∙ ap (slots cap buf pos) (omega arith)

-- What send(2) has taken, followed by what waits, stays the same in a flush, so the client gets the
-- bytes of the responses in order, each once.
pub flush_send_keeps :
    (os : List Sending) (conn : Conn) (sent : List ℕ) {conn' : Conn} {sent' : List ℕ}
    {rest : List Sending}
    → SendOk conn
    → flush_send os conn sent ≡ some (conn', sent', rest)
    → (sent' ++ waiting conn' ≡ sent ++ waiting conn) × SendOk conn'
unfolding flush_send advance
flush_send_keeps [] conn sent v h = ground (arith, v)
flush_send_keeps (Sending.waits ∷ os) conn sent v h = ground (arith, v)
flush_send_keeps (Sending.breaks ∷ os) conn sent v h = ground (arith, v)
flush_send_keeps (Sending.sends k ∷ os) conn sent {conn'} {sent'} {rest} v h =
    let pos = conn.send_head in
    let r = readable pos conn.send_tail send_mask in
    let n = min (k + 1) (min (send_mask + 1 - pos) r) in
    let moved = record conn { send_head = bit_and (size_add pos n) send_mask } in
    elim (Bool-cases (pos == conn.send_tail)) [
      | inl empty ↦ ground (arith, v)
      | inr more ↦
          let (less, v') = readable-advance pos conn.send_tail send_mask n v (omega arith) in
          let ih =
            flush_send_keeps os moved (sent ++ bytes conn.send_buf pos n) {conn' = conn'}
              {sent' = sent'} {rest = rest} v' (rw more at h) in
          (
            ih.0
                ∙ append_assoc sent (bytes conn.send_buf pos n) (waiting moved)
                ∙ ap (λ (l : List ℕ). sent ++ l)
                    (take-waiting conn.send_buf pos n
                      (readable moved.send_head conn.send_tail send_mask) r (omega arith) less),
            ih.1,
          )
    ]

readable-zero :
    (head tail mask : ℕ) → InRing head tail mask → readable head tail mask ≡ 0 → head ≡ tail
unfolding readable
readable-zero head tail mask v e = ground arith

readable-pos :
    (head tail mask : ℕ) → InRing head tail mask → head ≢ tail → 0 < readable head tail mask
unfolding readable
readable-pos head tail mask v ne = ground arith

-- A flush returns once send(2) has been called as often as bytes wait.
pub flush_send_total :
    (os : List Sending) (conn : Conn) (sent : List ℕ)
    → SendOk conn
    → readable conn.send_head conn.send_tail send_mask ≤ length os
    → (r : Conn × List ℕ × List Sending) × (flush_send os conn sent ≡ some r)
unfolding flush_send advance
flush_send_total [] conn sent v h =
    let e = readable-zero conn.send_head conn.send_tail send_mask v (omega arith) in
    ((conn, sent, []), rw (eq→== conn.send_head conn.send_tail e) refl)
flush_send_total (Sending.waits ∷ os) conn sent v h =
    elim (Bool-cases (conn.send_head == conn.send_tail)) [
      | inl empty ↦ ((conn, sent, Sending.waits ∷ os), rw empty refl)
      | inr more ↦ ((conn, sent, os), rw more refl)
    ]
flush_send_total (Sending.breaks ∷ os) conn sent v h =
    elim (Bool-cases (conn.send_head == conn.send_tail)) [
      | inl empty ↦ ((conn, sent, Sending.breaks ∷ os), rw empty refl)
      | inr more ↦ ((record conn { state = ConnState.closing }, sent, os), rw more refl)
    ]
flush_send_total (Sending.sends k ∷ os) conn sent v h =
    let pos = conn.send_head in
    let r = readable pos conn.send_tail send_mask in
    let n = min (k + 1) (min (send_mask + 1 - pos) r) in
    let moved = record conn { send_head = bit_and (size_add pos n) send_mask } in
    elim (Bool-cases (pos == conn.send_tail)) [
      | inl empty ↦ ((conn, sent, Sending.sends k ∷ os), rw empty refl)
      | inr more ↦
          let some_wait =
            readable-pos pos conn.send_tail send_mask v (==→ne pos conn.send_tail more) in
          let (less, v') = readable-advance pos conn.send_tail send_mask n v (omega arith) in
          let bound : readable moved.send_head moved.send_tail send_mask ≤ length os =
            omega (arith, less, some_wait, v.head_in) in
          rw more (flush_send_total os moved (sent ++ bytes conn.send_buf pos n) v' bound)
    ]

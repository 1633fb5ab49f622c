-- ===== src/Gateway/Send.antt =====
-- src/net/gateway.c: the responses, gw_send_to_conn and gw_flush_send. A response is the bytes of its
-- struct.
pub mod Stream
use aspira_broker.Prelude.{
  ℕ, zero, suc, ◌+◌, ◌-◌, ◌*◌, min, Bool, true, false, Option, none, some, List, [], ◌∷◌, ◌++◌,
  length, ltb, ◌==◌, if◌then◌else◌, Buffer, write, bit_and, size_add,
}
use aspira_broker.Gateway.Bytes.{readable, writable, bytes}
use aspira_broker.Gateway.State.{Conn, ConnState, send_ring_size}

-- sizeof(bt_order_response_t).
abbrev pub response_size : ℕ
response_size = 88

abbrev pub send_mask : ℕ
send_mask = send_ring_size - 1

-- The bytes of the frame: its length of 93 in network order, 'R', and the response.
abbrev pub response_frame : List ℕ → List ℕ
response_frame resp = 0 ∷ 0 ∷ 0 ∷ (5 + response_size) ∷ b'R' ∷ resp

-- The stores of some bytes from `pos + i` on.
unfoldable pub put_bytes : Buffer ℕ → ℕ → ℕ → List ℕ → Buffer ℕ
put_bytes buf pos i [] = buf
put_bytes buf pos i (b ∷ bs) =
    put_bytes (write buf (bit_and (size_add pos i) send_mask) b) pos (i + 1) bs

-- gw_send_to_conn.
unfoldable pub send_to_conn : Conn → List ℕ → Conn
unfolding put_bytes
send_to_conn conn resp =
    if ltb (writable conn.send_head conn.send_tail send_mask) (response_size + 5)
    then conn
    else record conn {
      send_buf = put_bytes conn.send_buf conn.send_tail 0 (response_frame resp);
      send_tail = bit_and (size_add conn.send_tail (5 + response_size)) send_mask;
    }

-- What a call of send(2) does: take one byte and `n` more, as far as there are as many; have to
-- wait; or fail otherwise. A result of 0 is one of the latter two, by what errno holds.
pub data Sending : Type 0 where
  sends : ℕ → Sending
  waits : Sending
  breaks : Sending

-- gw_flush_send: the connection, what send(2) has taken so far, and the outcomes left. A run that
-- needs more outcomes than there are gives none.
unfoldable pub flush_send : List Sending → Conn → List ℕ → Option (Conn × List ℕ × List Sending)
flush_send [] conn sent = if conn.send_head == conn.send_tail then some (conn, sent, []) else none
flush_send (o ∷ os) conn sent =
    let pos = conn.send_head in
    let to_write = min (send_mask + 1 - pos) (readable pos conn.send_tail send_mask) in
    if pos == conn.send_tail then some (conn, sent, o ∷ os) else (elim o [
      | sends k ↦
          let n = min (k + 1) to_write in
          flush_send os (record conn { send_head = bit_and (size_add pos n) send_mask })
            (sent ++ bytes conn.send_buf pos n)
      | waits ↦ some (conn, sent, os)
      | breaks ↦ some (record conn { state = ConnState.closing }, sent, os)
    ])

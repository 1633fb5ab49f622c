-- ===== src/Gateway/Loop/Events.antt =====
-- One event of a connection: it is handled, no byte is lost, and EPOLLOUT is asked for where bytes wait.
use aspira_broker.Prelude.{
  ℕ, ◌+◌, ◌-◌, ◌≤◌, ◌≡◌, ◌⊎◌, inl, inr, refl, ap, ◌∙◌, arith, Bool, true, false, not, Option, none,
  some, min, List, [], ◌∷◌, ◌++◌, length, length-append, length-slots, Bool-cases, ◌==◌,
  if◌then◌else◌, bit_and, size_add,
}
use aspira_broker.Gateway.Bytes.{readable, bytes}
use aspira_broker.Gateway.State.{Conn, ConnState, Gateway, send_ring_size}
use aspira_broker.Gateway.Frames.{close, frame_len}
use aspira_broker.Gateway.Frames.Progress.{RecvOk, Settled}
use aspira_broker.Gateway.Send.{Sending, send_mask, flush_send}
use aspira_broker.Gateway.Send.Stream.{SendOk, waiting, flush_send_keeps, flush_send_total}
use aspira_broker.Gateway.Loop.{
  Event, read_event, write_event, rearm, is_closing, close_event, handle_event,
}
use aspira_broker.Gateway.Loop.Receive.{Ends, Untouched, Untouched-trans, read_loop_settles}

-- A connection between two events: sound rings, and no whole frame left to process unless it closes.
pub record IsSteady (conn : Conn) : Type 0 where
  pub recv : RecvOk conn
  pub send : SendOk conn
  pub settled : Settled conn

-- How many bytes wait to be sent.
abbrev pub unsent : Conn → ℕ
unsent conn = readable conn.send_head conn.send_tail send_mask

-- What sending leaves alone.
abbrev Inward : Conn → Conn → Type 0
Inward conn' conn =
    (conn'.fd ≡ conn.fd)
    × (conn'.recv_buf ≡ conn.recv_buf)
    × (conn'.recv_head ≡ conn.recv_head)
    × (conn'.recv_tail ≡ conn.recv_tail)
    × ((conn'.state ≡ conn.state) ⊎ (conn'.state ≡ ConnState.closing))

flush_send-Inward :
    (os : List Sending) (conn : Conn) (sent : List ℕ) {conn' : Conn} {sent' : List ℕ}
    {rest : List Sending}
    → flush_send os conn sent ≡ some (conn', sent', rest)
    → Inward conn' conn
unfolding flush_send
flush_send-Inward [] conn sent h = ground arith
flush_send-Inward (Sending.waits ∷ os) conn sent h = ground arith
flush_send-Inward (Sending.breaks ∷ os) conn sent h = ground arith
flush_send-Inward (Sending.sends k ∷ os) conn sent {conn'} {sent'} {rest} h =
    let pos = conn.send_head in
    let n = min (k + 1) (min (send_mask + 1 - pos) (unsent conn)) in
    let moved = record conn { send_head = bit_and (size_add pos n) send_mask } in
    elim (Bool-cases (pos == conn.send_tail)) [
      | inl empty ↦ ground arith
      | inr more ↦
          flush_send-Inward os moved (sent ++ bytes conn.send_buf pos n) {conn' = conn'}
            {sent' = sent'} {rest = rest} (rw more at h)
    ]

-- A flush that returned: the connection is steady, and no byte is lost.
Inward-IsSteady :
    (conn conn' : Conn) → Inward conn' conn → SendOk conn' → IsSteady conn → IsSteady conn'
unfolding frame_len
Inward-IsSteady conn conn' (_, buf, head, tail, state) send v = record {
  recv = rw (head, tail) v.recv;
  send = send;
  settled = elim state [
    | inr closed ↦ inl closed
    | inl kept ↦ rw (kept, buf, head, tail) v.settled
  ];
}

-- Closing the descriptor and asking for EPOLLOUT leave a connection steady.
relabel-IsSteady :
    (conn : Conn) (fd : Option ℕ) (asked : Bool)
    → IsSteady conn
    → IsSteady (record conn { fd = fd; send_pending = asked })
unfolding frame_len
relabel-IsSteady conn fd asked v = record { recv = v.recv; send = v.send; settled = v.settled }

flush_send-IsSteady :
    (os : List Sending) (conn : Conn) (sent : List ℕ)
    → IsSteady conn
    → unsent conn ≤ length os
    → (r : Conn × List ℕ × List Sending) × (flush_send os conn sent ≡ some r)
      × IsSteady r.0
      × (r.1 ++ waiting r.0 ≡ sent ++ waiting conn)
      × Inward r.0 conn
flush_send-IsSteady os conn sent v h =
    let ((conn', sent', rest), run) = flush_send_total os conn sent v.send h in
    let (bytes', send') =
      flush_send_keeps os conn sent {conn' = conn'} {sent' = sent'} {rest = rest} v.send run in
    let inward = flush_send-Inward os conn sent {conn' = conn'} {sent' = sent'} {rest = rest} run in
    ((conn', sent', rest), run, Inward-IsSteady conn conn' inward send' v, bytes', inward)

read_event-IsSteady :
    (ev : Event) (ctx : Gateway) (conn : Conn)
    → IsSteady conn
    → Ends ev.readings
    → (r : Gateway × Conn) × (read_event ev ctx conn ≡ some r) × IsSteady r.1 × Untouched r.1 conn
unfolding read_event
read_event-IsSteady ev ctx conn v e =
    let marked = if ev.is_error then close conn else conn in
    let steady : IsSteady marked = elim (Bool-cases ev.is_error) [
      | inl failed ↦ rw failed (record { recv = v.recv; send = v.send; settled = inl refl })
      | inr fine ↦ rw fine v
    ] in
    let same : Untouched marked conn = elim (Bool-cases ev.is_error) [
      | inl failed ↦ rw failed (refl, refl, refl, refl, refl)
      | inr fine ↦ rw fine (refl, refl, refl, refl, refl)
    ] in
    elim (Bool-cases ev.is_in) [
      | inl ready ↦
          let ((ctx', conn', rest), run, settled, recv, same') =
            read_loop_settles ev.readings ctx marked e steady.recv steady.settled in
          (
            (ctx', conn'),
            rw (ready, run) refl,
            record { recv = recv; send = rw (same'.2, same'.3) steady.send; settled = settled },
            Untouched-trans conn' marked conn same' same,
          )
      | inr idle ↦ ((ctx, marked), rw idle refl, steady, same)
    ]

fewer :
    (sent : List ℕ) (conn' conn : Conn)
    → sent ++ waiting conn' ≡ waiting conn
    → unsent conn' ≤ unsent conn
fewer sent conn' conn e = omega (
  arith,
  ap (λ (xs : List ℕ). length xs) e,
  length-append sent (waiting conn'),
  length-slots send_ring_size conn'.send_buf conn'.send_head (unsent conn'),
  length-slots send_ring_size conn.send_buf conn.send_head (unsent conn),
)

write_event-IsSteady :
    (ev : Event) (conn : Conn)
    → IsSteady conn
    → unsent conn ≤ length ev.sendings
    → (r : Conn × List ℕ) × (write_event ev conn ≡ some r)
      × IsSteady r.0
      × (r.1 ++ waiting r.0 ≡ waiting conn)
      × (r.0.fd ≡ conn.fd)
unfolding write_event
write_event-IsSteady ev conn v h = elim (Bool-cases ev.is_out) [
  | inl ready ↦
      let ((conn', sent, rest), run, v', kept, inward) =
        flush_send-IsSteady ev.sendings conn [] v h in
      ((conn', sent), rw (ready, run) refl, v', kept, inward.0)
  | inr idle ↦ ((conn, []), rw idle refl, v, refl, refl)
]

-- EPOLLOUT is asked for exactly if bytes wait.
abbrev pub armed : Conn → Conn
armed conn = record conn { send_pending = not (conn.send_head == conn.send_tail) }

rearm-armed : (conn : Conn) → rearm conn ≡ armed conn
unfolding rearm
rearm-armed conn = elim (Bool-cases (conn.send_head == conn.send_tail)) [
  | inl empty ↦ elim (Bool-cases conn.send_pending) [
    | inl asked ↦ rw empty (ground arith)
    | inr quiet ↦ ground arith
  ]
  | inr more ↦ ground arith
]

-- How an event leaves a connection: closed, or reading on with EPOLLOUT asked for exactly if bytes
-- wait.
abbrev pub Left : Conn → Conn → Type 0
Left conn' conn =
    (conn'.fd ≡ none) × (conn'.state ≡ ConnState.closing)
    ⊎ (conn'.fd ≡ conn.fd)
      × (conn'.state ≡ ConnState.reading)
      × (conn'.send_pending ≡ not (conn'.send_head == conn'.send_tail))

reading_if :
    (state : ConnState)
    → elim state [ ConnState.reading ↦ false | ConnState.closing ↦ true ] ≡ false
    → state ≡ ConnState.reading
reading_if ConnState.reading h = refl
reading_if ConnState.closing h = cc

closing_if :
    (state : ConnState)
    → elim state [ ConnState.reading ↦ false | ConnState.closing ↦ true ] ≡ true
    → state ≡ ConnState.closing
closing_if ConnState.reading h = cc
closing_if ConnState.closing h = refl

close_event-Left :
    (ev : Event) (conn : Conn) (sent : List ℕ)
    → IsSteady conn
    → unsent conn ≤ length ev.last_sendings
    → conn.send_pending ≡ not (conn.send_head == conn.send_tail)
    → (r : Conn × List ℕ) × (close_event ev conn sent ≡ some r)
      × IsSteady r.0
      × (r.1 ++ waiting r.0 ≡ sent ++ waiting conn)
      × Left r.0 conn
unfolding close_event
close_event-Left ev conn sent v h a = elim (Bool-cases (is_closing conn)) [
  | inl closing ↦
      let ((conn', sent', rest), run, v', kept, inward) =
        flush_send-IsSteady ev.last_sendings conn sent v h in
      (
        (record conn' { fd = none }, sent'),
        rw (closing, run) refl,
        relabel-IsSteady conn' none conn'.send_pending v',
        kept,
        inl (
          refl,
          elim inward.4 [ inl same ↦ same ∙ closing_if conn.state closing | inr marked ↦ marked ],
        ),
      )
  | inr open_still ↦
      ((conn, sent), rw open_still refl, v, refl, inr (refl, reading_if conn.state open_still, a))
]

-- An event of a connection with sound rings and no whole frame left, for which read(2) ends and
-- send(2) is answered for as many bytes as wait, is handled: the connection keeps sound rings and has
-- no whole frame left unless it closes; what send(2) took, followed by what waits, is what waited
-- before; and the connection is closed, or reads on with EPOLLOUT asked for exactly if bytes wait.
pub handle_event-IsSteady :
    (ev : Event) (ctx : Gateway) (conn : Conn)
    → IsSteady conn
    → Ends ev.readings
    → unsent conn ≤ length ev.sendings
    → unsent conn ≤ length ev.last_sendings
    → (r : Gateway × Conn × List ℕ) × (handle_event ev ctx conn ≡ some r)
      × IsSteady r.1
      × (r.2 ++ waiting r.1 ≡ waiting conn)
      × Left r.1 conn
unfolding handle_event
handle_event-IsSteady ev ctx conn v e h l =
    let ((ctx', c1), read, v1, same) = read_event-IsSteady ev ctx conn v e in
    let still : waiting c1 ≡ waiting conn = rw (same.1, same.2, same.3) refl in
    let count : unsent c1 ≡ unsent conn = rw (same.2, same.3) refl in
    let ((c2, sent), wrote, v2, kept, fd2) = write_event-IsSteady ev c1 v1 (omega (arith, count)) in
    let less = fewer sent c2 c1 kept in
    let v3 : IsSteady (armed c2) =
      relabel-IsSteady c2 c2.fd (not (c2.send_head == c2.send_tail)) v2 in
    let ((c3, sent'), shut, v4, kept', left) =
      close_event-Left ev (armed c2) sent v3 (omega (arith, less, count)) refl in
    (
      (ctx', c3, sent'),
      rw (read, handle_event, wrote, rearm-armed c2, shut) refl,
      v4,
      kept' ∙ kept ∙ still,
      elim left [
        | inl closed ↦ inl closed
        | inr (fd3, on, asked) ↦ inr (fd3 ∙ fd2 ∙ same.0, on, asked)
      ],
    )

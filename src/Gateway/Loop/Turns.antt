-- ===== src/Gateway/Loop/Turns.antt =====
-- What stays true through all turns of the event loop.
use aspira_broker.Prelude.{
  ℕ, zero, suc, ◌+◌, ◌≤◌, ◌<◌, ◌≡◌, inl, inr, refl, sym, ◌∙◌, arith, Bool, true, false, ◌&&◌, some,
  List, [], ◌∷◌, length, get_or, set, map, ltb, ltb→ge, Bool-cases, Option-cases, if◌then◌else◌,
  size_sub,
}
use mathlib.Core.Path.{subst}
use aspira_broker.Ring.{RingQueue, mpsc_pop}
use aspira_broker.Gateway.Bytes.{readable, writable, advance, readable-extend}
use aspira_broker.Gateway.State.{Conn, ConnState}
use aspira_broker.Gateway.Frames.{frame_len}
use aspira_broker.Gateway.Send.{send_to_conn, send_mask, response_size}
use aspira_broker.Gateway.Pool.{
  Connections, is_open, deliver, drain_responses, accepted, fill_free_slot, accept, scan_idle,
  idle_timeout,
}
use aspira_broker.Gateway.Pool.Counts.{open_count, fill_free_slot-lem}
use aspira_broker.Gateway.Loop.{
  Server, Ready, accepts, happens, accept_all, unused, settle, handle_ready,
}
use aspira_broker.Gateway.Loop.Receive.{Ends}
use aspira_broker.Gateway.Loop.Events.{IsSteady, unsent, Left, handle_event-IsSteady}

abbrev pub AllSteady : List Conn → Type 0
AllSteady [] = Unit
AllSteady (conn ∷ conns) = IsSteady conn × AllSteady conns

-- The count of open connections is right and every connection is steady.
pub record IsSound (pool : Connections) : Type 0 where
  pub counted : pool.active_conns ≡ open_count pool.conns
  pub steady : AllSteady pool.conns

pub accepted-IsSteady : (cfd now : ℕ) → IsSteady (accepted cfd now)
unfolding readable
accepted-IsSteady cfd now = record {
  recv = record {
    pow = (16, refl);
    small = omega arith;
    head_in = omega arith;
    tail_in = omega arith;
  };
  send = record {
    pow = (16, refl);
    small = omega arith;
    head_in = omega arith;
    tail_in = omega arith;
  };
  settled = inr (inl (omega arith));
}

-- What one call does to every connection of the table.
record Keeps (f : Conn → Conn) : Type 0 where
  steady : (conn : Conn) → IsSteady conn → IsSteady (f conn)
  opens : (conn : Conn) → is_open (f conn) ≡ is_open conn

deliver-Keeps : (resp : List ℕ) → Keeps (deliver resp)
unfolding deliver send_to_conn frame_len advance
deliver-Keeps resp = record {
  steady = λ conn v. elim (Bool-cases (is_open conn && conn.authenticated)) [
    | inr other ↦ rw other v
    | inl ours ↦
        elim (Bool-cases
          (ltb (writable conn.send_head conn.send_tail send_mask) (response_size + 5))) [
            | inl full ↦ rw (ours, full) v
            | inr fits ↦
                rw (ours, fits)
                  (record {
                    recv = v.recv;
                    send =
                        (readable-extend conn.send_head conn.send_tail send_mask 93 v.send
                          (omega (arith, ltb→ge _ _ fits))).1;
                    settled = v.settled;
                  })
          ]
  ];
  opens = λ conn. ground arith;
}

idle-Keeps :
    (now : ℕ)
    → Keeps (λ (conn : Conn).
      if is_open conn && ltb idle_timeout (size_sub now conn.last_active)
      then record conn { state = ConnState.closing }
      else conn)
unfolding frame_len
idle-Keeps now = record {
  steady = λ conn v.
      elim (Bool-cases (is_open conn && ltb idle_timeout (size_sub now conn.last_active))) [
        | inl old ↦ rw old (record { recv = v.recv; send = v.send; settled = inl refl })
        | inr other ↦ rw other v
      ];
  opens = λ conn. ground arith;
}

map-Keeps :
    {f : Conn → Conn} (conns : List Conn)
    → Keeps f
    → (AllSteady conns → AllSteady (map f conns)) × (open_count (map f conns) ≡ open_count conns)
map-Keeps [] k = (λ v. v, refl)
map-Keeps (conn ∷ conns) k =
    let (steady, count) = map-Keeps conns k in
    (λ v. (k.steady conn v.0, steady v.1), rw (k.opens conn, count) refl)

drain_responses-Keeps :
    (fuel : ℕ) (q : RingQueue (List ℕ)) (conns : List Conn) {q' : RingQueue (List ℕ)}
    {conns' : List Conn}
    → drain_responses fuel q conns ≡ some (q', conns')
    → AllSteady conns
    → AllSteady conns' × (open_count conns' ≡ open_count conns)
unfolding drain_responses
drain_responses-Keeps zero q conns h v = cc
drain_responses-Keeps (suc fuel) q conns {q'} {conns'} h v = elim (Option-cases (mpsc_pop q).0) [
  | inl empty ↦
      let same : conns ≡ conns' = ground (arith, (rw (empty, drain_responses) at h)) in
      subst (λ (cs : List Conn). AllSteady cs × (open_count cs ≡ open_count conns)) same (v, refl)
  | inr (resp, e) ↦
      let (steady, count) = map-Keeps conns (deliver-Keeps resp) in
      let (steady', count') =
        drain_responses-Keeps fuel (mpsc_pop q).1 (map (deliver resp) conns) {q' = q'}
          {conns' = conns'} (rw (e, drain_responses) at h) (steady v) in
      (steady', count' ∙ count)
]

fill_free_slot-AllSteady :
    (conns : List Conn) (new : Conn) {conns' : List Conn}
    → IsSteady new
    → AllSteady conns
    → fill_free_slot conns new ≡ some conns'
    → AllSteady conns'
unfolding fill_free_slot
fill_free_slot-AllSteady [] new w v h = cc
fill_free_slot-AllSteady (conn ∷ conns) new {conns'} w v h = elim (Bool-cases (is_open conn)) [
  | inl used ↦ elim (Option-cases (fill_free_slot conns new)) [
    | inl e ↦ absurd (ground (arith, (rw (used, e) at h)))
    | inr (rest, e) ↦
        let same : conn ∷ rest ≡ conns' = ground (arith, (rw (used, e) at h)) in
        subst AllSteady same (v.0, fill_free_slot-AllSteady conns new {conns' = rest} w v.1 e)
  ]
  | inr free ↦
      let same : new ∷ conns ≡ conns' = ground (arith, (rw free at h)) in
      subst AllSteady same (w, v.1)
]

accept-IsSound :
    (pool : Connections) (cfd : ℕ) (added : Bool) (now : ℕ)
    → IsSound pool
    → IsSound (accept pool cfd added now)
unfolding accept
accept-IsSound pool cfd added now v =
    elim (Option-cases (fill_free_slot pool.conns (accepted cfd now))) [
      | inl full ↦ rw (full, accept) v
      | inr (conns, slot) ↦ elim (Bool-cases added) [
        | inr failed ↦ rw (slot, accept, failed) v
        | inl joined ↦
            let (count, _) =
              fill_free_slot-lem pool.conns (accepted cfd now) {conns' = conns} refl slot in
            rw (slot, accept, joined)
              (record {
                counted = omega (arith, count, v.counted);
                steady =
                    fill_free_slot-AllSteady pool.conns (accepted cfd now) {conns' = conns}
                      (accepted-IsSteady cfd now) v.steady slot;
              })
      ]
    ]

accept_all-IsSound :
    (calls : List (ℕ × Bool × ℕ)) (pool : Connections)
    → IsSound pool
    → IsSound (accept_all calls pool)
unfolding accept_all
accept_all-IsSound [] pool v = v
accept_all-IsSound ((cfd, added, now) ∷ calls) pool v =
    accept_all-IsSound calls (accept pool cfd added now) (accept-IsSound pool cfd added now v)

AllSteady-get_or :
    (conns : List Conn) (i : ℕ) (d : Conn)
    → i < length conns
    → AllSteady conns
    → IsSteady (get_or conns i d)
AllSteady-get_or [] i d h v = absurd (omega arith)
AllSteady-get_or (conn ∷ conns) zero d h v = v.0
AllSteady-get_or (conn ∷ conns) (suc i) d h v = AllSteady-get_or conns i d (omega arith) v.1

AllSteady-set :
    (conns : List Conn) (i : ℕ) (conn : Conn)
    → IsSteady conn
    → AllSteady conns
    → AllSteady (set conns i conn)
AllSteady-set [] i conn w v = v
AllSteady-set (c ∷ conns) zero conn w v = (w, v.1)
AllSteady-set (c ∷ conns) (suc i) conn w v = (v.0, AllSteady-set conns i conn w v.1)

abbrev one_if : Bool → ℕ
one_if b = if b then 1 else 0

open_count-set :
    (conns : List Conn) (i : ℕ) (conn d : Conn)
    → i < length conns
    → open_count (set conns i conn) + one_if (is_open (get_or conns i d))
      ≡ open_count conns + one_if (is_open conn)
open_count-set [] i conn d h = absurd (omega arith)
open_count-set (c ∷ conns) zero conn d h = omega arith
open_count-set (c ∷ conns) (suc i) conn d h =
    omega (arith, open_count-set conns i conn d (omega arith))

-- epoll_wait reports connections whose descriptors it watches; read(2) ends, and send(2) is
-- answered for as many bytes as wait.
abbrev pub Awaited : Connections → Ready → Type 0
Awaited pool (accepts calls) = Unit
Awaited pool (happens i ev) =
    (i < length pool.conns)
    × (is_open (get_or pool.conns i unused) ≡ true)
    × Ends ev.readings
    × (unsent (get_or pool.conns i unused) ≤ length ev.sendings)
    × (unsent (get_or pool.conns i unused) ≤ length ev.last_sendings)

settle-IsSound :
    (pool : Connections) (i : ℕ) (conn : Conn)
    → i < length pool.conns
    → is_open (get_or pool.conns i unused) ≡ true
    → IsSteady conn
    → Left conn (get_or pool.conns i unused)
    → IsSound pool
    → IsSound (settle pool i conn)
settle-IsSound pool i conn inside opened w left v =
    let count = open_count-set pool.conns i conn unused inside in
    let steady = AllSteady-set pool.conns i conn w v.steady in
    elim left [
      | inl (gone, closing) ↦
          let now_closed : is_open conn ≡ false = rw gone refl in
          record {
            counted = rw closing (ground (arith, (rw (opened, now_closed) at count), v.counted));
            steady = steady;
          }
      | inr (same, on, _) ↦
          let still_open : is_open conn ≡ true = rw same opened in
          record {
            counted = rw on (ground (arith, (rw (opened, still_open) at count), v.counted));
            steady = steady;
          }
    ]

handle_ready-IsSound :
    (s : Server) (r : Ready) {t : Server}
    → Awaited s.pool r
    → handle_ready s r ≡ some t
    → IsSound s.pool
    → IsSound t.pool
unfolding handle_ready
handle_ready-IsSound s (accepts calls) {t} a h v =
    let same : record s { pool = accept_all calls s.pool } ≡ t = cc in
    subst (λ (u : Server). IsSound u.pool) same (accept_all-IsSound calls s.pool v)
handle_ready-IsSound s (happens i ev) {t} (inside, opened, e, h1, h2) h v =
    let conn = get_or s.pool.conns i unused in
    let ((ctx, conn', sent), run, w, _, left) =
      handle_event-IsSteady ev s.gateway conn
        (AllSteady-get_or s.pool.conns i unused inside v.steady) e h1 h2 in
    let same : record s { gateway = ctx; pool = settle s.pool i conn' } ≡ t =
      ground (arith, (rw (run, handle_ready) at h)) in
    subst (λ (u : Server). IsSound u.pool) same
      (settle-IsSound s.pool i conn' inside opened w left v)

-- What gw_thread_core does in a round: it drains the responses, handles one event after another and
-- scans for idle connections.
pub data Turn : Server → Server → Type 0 where
  drains :
      (s : Server) (fuel : ℕ) {q : RingQueue (List ℕ)} {conns : List Conn}
      → drain_responses fuel s.responses s.pool.conns ≡ some (q, conns)
      → Turn s (record s { responses = q; pool = record s.pool { conns = conns } })
  handles :
      (s : Server) (r : Ready) {t : Server}
      → Awaited s.pool r
      → handle_ready s r ≡ some t
      → Turn s t
  scans :
      (s : Server) (now : ℕ)
      → Turn s (record s { pool = record s.pool { conns = scan_idle now s.pool.conns } })

pub data Reach (s : Server) : Server → Type 0 where
  here : Reach s s
  turn : {t u : Server} → Reach s t → Turn t u → Reach s u

Turn-IsSound : {s t : Server} → Turn s t → IsSound s.pool → IsSound t.pool
unfolding scan_idle
Turn-IsSound (drains s fuel {q} {conns} h) v =
    let (steady, count) =
      drain_responses-Keeps fuel s.responses s.pool.conns {q' = q} {conns' = conns} h v.steady in
    record { counted = v.counted ∙ sym count; steady = steady }
Turn-IsSound (handles s r {t} a h) v = handle_ready-IsSound s r {t = t} a h v
Turn-IsSound (scans s now) v =
    let (steady, count) = map-Keeps s.pool.conns (idle-Keeps now) in
    record { counted = v.counted ∙ sym count; steady = steady v.steady }

-- Whatever turns the event loop takes, active_conns stays the number of open connections, and every
-- connection keeps sound rings and, unless it closes, no whole frame left in its receive ring.
pub Reach-IsSound : {s t : Server} → Reach s t → IsSound s.pool → IsSound t.pool
Reach-IsSound here v = v
Reach-IsSound (turn r st) v = Turn-IsSound st (Reach-IsSound r v)

-- An event that epoll_wait reports is handled, in every state that the loop reaches from a sound one.
pub Reach-handles :
    {s t : Server} (r : Ready)
    → Reach s t
    → IsSound s.pool
    → Awaited t.pool r
    → (u : Server) × (handle_ready t r ≡ some u) × IsSound u.pool
unfolding handle_ready
Reach-handles {s} {t} (accepts calls) reach v a =
    (_, refl, accept_all-IsSound calls t.pool (Reach-IsSound reach v))
Reach-handles {s} {t} (happens i ev) reach v (inside, opened, e, h1, h2) =
    let sound = Reach-IsSound reach v in
    let conn = get_or t.pool.conns i unused in
    let ((ctx, conn', sent), run, w, _, left) =
      handle_event-IsSteady ev t.gateway conn
        (AllSteady-get_or t.pool.conns i unused inside sound.steady) e h1 h2 in
    (
      record t { gateway = ctx; pool = settle t.pool i conn' },
      rw (run, handle_ready) refl,
      settle-IsSound t.pool i conn' inside opened w left sound,
    )

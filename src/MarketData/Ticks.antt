-- ===== src/MarketData/Ticks.antt =====
-- No tick is lost or counted twice while the thread runs, and what is queued when it is stopped is
-- never counted.
use aspira_broker.Prelude.{
  ℕ, ◌+◌, ◌<◌, ◌≡◌, inl, inr, refl, ap, arith, false, Option, none, some, List, [], ◌∷◌, length,
  length-append, Bool-cases, Option-cases, if◌then◌else◌, size_mod, ltb,
}
use aspira_broker.Ring.{RingQueue, spsc_push, spsc_pop}
use aspira_broker.Ring.Inv.{IsRing, spsc_push-IsRing, spsc_pop-IsRing}
use aspira_broker.Ring.Fifo.{enqueue, dequeue}
use aspira_broker.Ring.Refine.{contents, push_refines, pop_refines}
use aspira_broker.MarketData.{MdTick, MarketData, turn, stop, Move, publishes, turns, stops, move}

-- After some moves: how many ticks were accepted, and what is left.
unfoldable pub play : List Move → MarketData → ℕ × MarketData
play [] md = (0, md)
play (m ∷ ms) md =
    let (accepted, md') = move m md in
    let (more, md'') = play ms md' in ((if accepted then 1 else 0) + more, md'')

-- How many ticks wait.
abbrev pub queued : MarketData → ℕ
queued md = length (contents md.in_queue)

push-length :
    {q : RingQueue MdTick} (tick : MdTick)
    → IsRing q
    → length (contents (spsc_push q tick).1)
      ≡ length (contents q) + (if (spsc_push q tick).0 then 1 else 0)
unfolding enqueue
push-length {q} tick v =
    let e = push_refines tick v in
    let xs = contents q in
    elim (Bool-cases (ltb (length xs) q.mask)) [
      | inl room ↦
          let f = rw room at e in
          rw (ap (λ r. r.0) f, ap (λ r. r.1) f) (length-append xs (tick ∷ []))
      | inr full ↦ let f = rw full at e in rw (ap (λ r. r.0) f, ap (λ r. r.1) f) (omega arith)
    ]

dequeue-length :
    (xs : List MdTick) (o : Option MdTick) (ys : List MdTick)
    → (o, ys) ≡ dequeue xs
    → length xs ≡ length ys + (elim o [ none ↦ 0 | some _ ↦ 1 ])
unfolding dequeue
dequeue-length [] o ys e = ground (arith, e)
dequeue-length (x ∷ xs) o ys e = ground (arith, e)

pop-length :
    {q : RingQueue MdTick}
    → IsRing q
    → length (contents q)
      ≡ length (contents (spsc_pop q).1) + (elim (spsc_pop q).0 [ none ↦ 0 | some _ ↦ 1 ])
pop-length {q} v =
    dequeue-length (contents q) (spsc_pop q).0 (contents (spsc_pop q).1) (pop_refines v)

-- One move keeps what is counted and queued, but for what it puts in.
move-keeps :
    (m : Move) (md : MarketData)
    → IsRing md.in_queue
    → md.tick_count + queued md < size_mod
    → let (accepted, md') = move m md in
      IsRing md'.in_queue
      × (md'.tick_count + queued md' ≡ md.tick_count + queued md + (if accepted then 1 else 0))
unfolding move turn stop
move-keeps (publishes tick) md v small =
    (spsc_push-IsRing tick v, omega (arith, push-length tick v))
move-keeps stops md v small = (v, omega arith)
move-keeps turns md v small = elim (Bool-cases md.running) [
  | inr halted ↦ rw halted (v, omega arith)
  | inl runs ↦ elim (Option-cases (spsc_pop md.in_queue).0) [
    | inl empty ↦ rw (runs, empty) (spsc_pop-IsRing v, omega (arith, (rw empty at (pop-length v))))
    | inr (tick, e) ↦ rw (runs, e) (spsc_pop-IsRing v, omega (arith, (rw e at (pop-length v))))
  ]
]

-- On a sound queue, and below 2^64, the ticks that have been counted and those that are queued are
-- together what they were before some moves and the ticks that these put into the queue.
pub play_counts :
    (ms : List Move) (md : MarketData)
    → IsRing md.in_queue
    → md.tick_count + queued md + length ms < size_mod
    → let (accepted, md') = play ms md in
      md'.tick_count + queued md' ≡ md.tick_count + queued md + accepted
unfolding play
play_counts [] md v small = omega arith
play_counts (m ∷ ms) md v small =
    let (w, kept) = move-keeps m md v (omega arith) in
    elim (Bool-cases (move m md).0) [
      | inl put ↦
          let one = rw put at kept in
          rw put (omega (arith, one, play_counts ms (move m md).1 w (omega (arith, one))))
      | inr not_put ↦
          let none_more = rw not_put at kept in
          rw not_put
            (omega (arith, none_more, play_counts ms (move m md).1 w (omega (arith, none_more))))
    ]

-- Once the thread has been stopped, no tick is counted any more, whatever is queued.
pub play_stopped :
    (ms : List Move) (md : MarketData)
    → md.running ≡ false
    → (play ms md).1.tick_count ≡ md.tick_count
unfolding play move turn stop
play_stopped [] md h = refl
play_stopped (publishes tick ∷ ms) md h =
    play_stopped ms (record md { in_queue = (spsc_push md.in_queue tick).1 }) h
play_stopped (turns ∷ ms) md h = rw h (play_stopped ms (record md { running = false }) refl)
play_stopped (stops ∷ ms) md h = play_stopped ms (record md { running = false }) refl

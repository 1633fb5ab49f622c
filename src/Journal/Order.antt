-- ===== src/Journal/Order.antt =====
-- The journal as an append-only log: what stands in the file, then in the buffer, then in the ring.
use mathlib.Core.Path.{subst}
use aspira_broker.Prelude.{
  ℕ, ◌+◌, ◌≡◌, ◌⊎◌, inl, inr, refl, sym, length, leb, ap, ◌∙◌, arith, Bool, true, false, Option,
  none, some, List, [], ◌∷◌, ◌++◌, if◌then◌else◌, append-nil, append_assoc, Bool-cases,
  Option-cases,
}
use aspira_broker.Ring.{RingQueue, spsc_push, spsc_pop}
use aspira_broker.Ring.Inv.{IsRing, spsc_push-IsRing, spsc_pop-IsRing}
use aspira_broker.Ring.Fifo.{enqueue, dequeue}
use aspira_broker.Ring.Refine.{contents, push_refines, pop_refines}
use aspira_broker.Journal.{
  Bytes, Journal, buf_size, append, do_flush, make_room, buffer_entry, round, finish,
}
use aspira_broker.Journal.Flush.{taken, do_flush_keeps}
use aspira_broker.Journal.Worker.{Steady, round-Steady}

-- The bytes of some entries, one after the other.
abbrev pub flat : List Bytes → Bytes
flat [] = []
flat (e ∷ es) = e ++ flat es

flat-append : (xs ys : List Bytes) → flat (xs ++ ys) ≡ flat xs ++ flat ys
flat-append [] ys = refl
flat-append (x ∷ xs) ys =
    ap (λ (l : Bytes). x ++ l) (flat-append xs ys) ∙ sym (append_assoc x (flat xs) (flat ys))

-- The whole log.
abbrev pub log : Journal → Bytes
log j = taken j ++ flat (contents j.ring)

-- The journal holds the log `l` on a sound ring, unless its buffer has overflowed.
abbrev pub Kept : Bytes → Journal → Type 0
Kept l j = (j.overflowed ≡ true) ⊎ ((log j ≡ l) × IsRing j.ring)

-- The journal holds the log `l` on a sound ring.
abbrev pub Holds : Bytes → Journal → Type 0
Holds l j = (log j ≡ l) × IsRing j.ring

enqueue-ok :
    (limit : ℕ) (xs : List Bytes) (x : Bytes) (s : Bool) {ys : List Bytes}
    → (s, ys) ≡ enqueue limit xs x
    → flat ys ≡ flat xs ++ (if s then x else [])
unfolding enqueue
enqueue-ok limit xs x true {ys} h =
    let e : ys ≡ xs ++ x ∷ [] = ground arith in
    ap flat e ∙ flat-append xs (x ∷ []) ∙ ap (λ (l : Bytes). flat xs ++ l) (append-nil x)
enqueue-ok limit xs x false {ys} h =
    let e : ys ≡ xs = ground arith in ap flat e ∙ sym (append-nil (flat xs))

-- An append that returns 0 adds its entry to the end of the log, and one that fails adds nothing.
append-log :
    (j : Journal) (entry : Bytes)
    → IsRing j.ring
    → let (ok, j') = append j entry in Holds (log j ++ (if ok then entry else [])) j'
unfolding append
append-log j entry v =
    let (ok, ring) = spsc_push j.ring entry in
    let sound = spsc_push-IsRing entry v in
    let longer =
      enqueue-ok j.ring.mask (contents j.ring) entry ok {ys = contents ring}
        (push_refines entry v) in
    let grown : taken j ++ flat (contents ring) ≡ log j ++ (if ok then entry else []) =
      ap (λ (l : Bytes). taken j ++ l) longer
      ∙ sym (append_assoc (taken j) (flat (contents j.ring)) (if ok then entry else [])) in
    elim (Bool-cases ok) [
      | inl e ↦ rw (e, append) ((rw e at grown), sound)
      | inr e ↦ rw (e, append) (sym (append-nil (log j)), v)
    ]

append-overflowed : (j : Journal) (entry : Bytes) → (append j entry).1.overflowed ≡ j.overflowed
unfolding append
append-overflowed j entry = ground arith

dequeue-some :
    (xs : List Bytes) (x : Bytes) {ys : List Bytes}
    → (some x, ys) ≡ dequeue xs
    → flat xs ≡ x ++ flat ys
unfolding dequeue
dequeue-some [] x h = cc
dequeue-some (x' ∷ xs) x {ys} h =
    let e : x' ≡ x = ground arith in let e' : xs ≡ ys = ground arith in rw (e, e') refl

make_room_keeps :
    (now : ℕ) (j : Journal) {k : Journal}
    → make_room now j ≡ some k
    → (taken k ≡ taken j) × (k.ring ≡ j.ring) × (k.overflowed ≡ j.overflowed)
unfolding make_room
make_room_keeps now j h = elim (Option-cases (do_flush true j)) [
  | inl e ↦ ground arith
  | inr (f, e) ↦ ground (arith, do_flush_keeps true j e)
]

take-log :
    (j k : Journal) (entry : Bytes)
    → IsRing j.ring
    → (spsc_pop j.ring).0 ≡ some entry
    → taken k ≡ taken j
    → k.ring ≡ (spsc_pop j.ring).1
    → (k.file ++ (k.write_buf ++ entry)) ++ flat (contents k.ring) ≡ log j
take-log j k entry v e t r =
    let rest = flat (contents (spsc_pop j.ring).1) in
    let first : flat (contents j.ring) ≡ entry ++ rest =
      dequeue-some (contents j.ring) entry {ys = contents (spsc_pop j.ring).1} (
        subst (λ (o : Option Bytes). (o, contents (spsc_pop j.ring).1) ≡ dequeue (contents j.ring))
          e (pop_refines v)) in
    ap (λ (l : Bytes). l ++ flat (contents k.ring)) (sym (append_assoc k.file k.write_buf entry))
    ∙ append_assoc (taken k) entry (flat (contents k.ring))
    ∙ ap (λ (l : Bytes). l ++ (entry ++ flat (contents k.ring))) t
    ∙ ap (λ (q : RingQueue Bytes). taken j ++ (entry ++ flat (contents q))) r
    ∙ ap (λ (l : Bytes). taken j ++ l) (sym first)

-- An entry that goes from the ring to the buffer stays in the log, or the buffer overflows.
buffer_entry-Kept :
    (l : Bytes) (k : Journal) (entry : Bytes)
    → (k.overflowed ≡ true)
      ⊎ (((k.file ++ (k.write_buf ++ entry)) ++ flat (contents k.ring) ≡ l) × IsRing k.ring)
    → Kept l (buffer_entry k entry)
unfolding buffer_entry
buffer_entry-Kept l k entry v =
    elim (Bool-cases (leb (length k.write_buf + length entry) buf_size)) [
      | inl room ↦ rw room v
      | inr over ↦ rw over (inl refl)
    ]

Kept-Steady : (l : Bytes) → Steady (Kept l)
Kept-Steady l = record {
  takes = λ t j entry k v e f.
      let (kept, ring, same) = make_room_keeps t (record j { ring = (spsc_pop j.ring).1 }) f in
      buffer_entry-Kept l k entry (elim v [
        | inl over ↦ inl (same ∙ over)
        | inr (held, sound) ↦ inr (
          take-log j k entry sound e kept ring ∙ held,
          subst (λ (q : RingQueue Bytes). IsRing q) (sym ring) (spsc_pop-IsRing sound),
        )
      ]);
  flushes = λ do_sync j k now v e.
      let (kept, ring, _, same) = do_flush_keeps do_sync j e in
      elim v [
        | inl over ↦ inl (same ∙ over)
        | inr (held, sound) ↦ inr (
          ap (λ (b : Bytes). b ++ flat (contents k.ring)) kept
              ∙ ap (λ (q : RingQueue Bytes). taken j ++ flat (contents q)) ring
              ∙ held,
          subst (λ (q : RingQueue Bytes). IsRing q) (sym ring) sound,
        )
      ];
  spins = λ j v. v;
}

-- What happens to a journal in use: an append, or a round of the worker with the times it reads.
pub data Event : Type 0 where
  appends : Bytes → Event
  works : (ℕ → ℕ) → Event

-- The journal after some events, and the entries whose append returned 0.
unfoldable pub run : Journal → List Event → Option (List Bytes × Journal)
run j [] = some ([], j)
run j (Event.appends entry ∷ events) =
    let (ok, j') = append j entry in
    elim (run j' events) [
      | none ↦ none
      | some (accepted, k) ↦ some (if ok then entry ∷ accepted else accepted, k)
    ]
run j (Event.works now ∷ events) = elim (round now j) [ none ↦ none | some j' ↦ run j' events ]

flat-if :
    (ok : Bool) (entry : Bytes) (rest : List Bytes)
    → flat (if ok then entry ∷ rest else rest) ≡ (if ok then entry else []) ++ flat rest
flat-if true entry rest = refl
flat-if false entry rest = refl

-- Appends keep what an overflow has left.
append-Kept :
    (l : Bytes) (j : Journal) (entry : Bytes)
    → Kept l j
    → let (ok, j') = append j entry in Kept (l ++ (if ok then entry else [])) j'
append-Kept l j entry v = elim v [
  | inl over ↦ inl (append-overflowed j entry ∙ over)
  | inr (held, sound) ↦ inr (
      subst
        (λ (b : Bytes). Holds (b ++ (if (append j entry).0 then entry else [])) (append j entry).1)
        held (append-log j entry sound))
]

-- Any run keeps the log or overflows the buffer.
run-Kept :
    (events : List Event) (l : Bytes) (j : Journal) {accepted : List Bytes} {k : Journal}
    → Kept l j
    → run j events ≡ some (accepted, k)
    → Kept (l ++ flat accepted) k
unfolding run
run-Kept [] l j {accepted} {k} v h =
    let (same, empty) : (j ≡ k) × (accepted ≡ []) = ground arith in
    subst (λ (t : Journal). Kept (l ++ flat accepted) t) same
      (rw empty (subst (λ (b : Bytes). Kept b j) (sym (append-nil l)) v))
run-Kept (Event.works now ∷ events) l j {accepted} {k} v h = elim (Option-cases (round now j)) [
  | inl e ↦ absurd (ground (arith, (rw (run, e) at h)))
  | inr (j', e) ↦
      run-Kept events l j' {accepted = accepted} {k = k} (round-Steady (Kept-Steady l) now j v e)
        (rw (run, e) at h)
]
run-Kept (Event.appends entry ∷ events) l j {accepted} {k} v h =
    let (ok, j') = append j entry in
    let more = if ok then entry else [] in
    elim (Option-cases (run j' events)) [
      | inl e ↦ absurd (ground (arith, (rw (run, e) at h)))
      | inr ((rest, k'), e) ↦
          let ih =
            run-Kept events (l ++ more) j' {accepted = rest} {k = k'} (append-Kept l j entry v) e in
          let h' = rw (run, e) at h in
          let logged : (if ok then entry ∷ rest else rest) ≡ accepted = ground (arith, h') in
          let last : k' ≡ k = ground (arith, h') in
          let whole : (l ++ more) ++ flat rest ≡ l ++ flat accepted =
            append_assoc l more (flat rest)
            ∙ ap (λ (b : Bytes). l ++ b) (sym (flat-if ok entry rest) ∙ ap flat logged) in
          subst (λ (b : Bytes). Kept b k) whole
            (subst (λ (t : Journal). Kept ((l ++ more) ++ flat rest) t) last ih)
    ]

-- Whatever the order of appends and rounds, and however write(2) answers: where the buffer has not
-- overflowed by then, what stands in the file, in the buffer and in the ring is what stood there
-- before, followed by the entries that were accepted, in the order of their appends, each once and
-- whole.
pub run_appends :
    (events : List Event) (j : Journal) {accepted : List Bytes} {k : Journal}
    → IsRing j.ring
    → run j events ≡ some (accepted, k)
    → k.overflowed ≡ false
    → Holds (log j ++ flat accepted) k
run_appends events j {accepted} {k} v h intact =
    elim (run-Kept events (log j) j {accepted = accepted} {k = k} (inr (refl, v)) h) [
      | inl over ↦ absurd (ground (arith, over, intact))
      | inr held ↦ held
    ]

-- An entry that was accepted while the buffer was empty is lost where the journal is closed before
-- the worker's next round: the file stays as it was.
pub finish_loses :
    (j : Journal) (entry : Bytes) {k k' : Journal}
    → j.write_buf ≡ []
    → append j entry ≡ (true, k)
    → finish k ≡ some k'
    → k'.file ≡ j.file
unfolding append finish do_flush
finish_loses j entry e h f = ground arith

-- ===== src/Gateway/Pool/Counts.antt =====
-- gw_accept takes a free slot, disturbs no open connection and keeps count.
use aspira_broker.Prelude.{
  ℕ, zero, suc, ◌+◌, ◌≡◌, inl, inr, refl, arith, Bool, true, false, some, List, [], ◌∷◌, get_or,
  if◌then◌else◌, Option-cases, Bool-cases,
}
use mathlib.Core.Path.{subst}
use aspira_broker.Gateway.State.{Conn}
use aspira_broker.Gateway.Pool.{Connections, is_open, accepted, fill_free_slot, accept}

abbrev pub open_count : List Conn → ℕ
open_count [] = 0
open_count (conn ∷ conns) = (if is_open conn then 1 else 0) + open_count conns

-- One connection more is open in `after`, and those that were open are where they were.
abbrev pub Filled : List Conn → List Conn → Type 0
Filled after before =
    (open_count after ≡ open_count before + 1)
    × ((j : ℕ) (d : Conn)
        → is_open (get_or before j d) ≡ true
        → get_or after j d ≡ get_or before j d)

at_cons :
    (conn : Conn) (after before : List Conn) (j : ℕ) (d : Conn)
    → ((i : ℕ) (d : Conn)
        → is_open (get_or before i d) ≡ true
        → get_or after i d ≡ get_or before i d)
    → is_open (get_or (conn ∷ before) j d) ≡ true
    → get_or (conn ∷ after) j d ≡ get_or (conn ∷ before) j d
at_cons conn after before zero d keep h = refl
at_cons conn after before (suc j) d keep h = keep j d h

at_free :
    (new conn : Conn) (conns : List Conn)
    → is_open conn ≡ false
    → (j : ℕ) (d : Conn) → is_open (get_or (conn ∷ conns) j d) ≡ true
    → get_or (new ∷ conns) j d ≡ get_or (conn ∷ conns) j d
at_free new conn conns free zero d h = cc
at_free new conn conns free (suc j) d h = refl

pub fill_free_slot-lem :
    (conns : List Conn) (new : Conn) {conns' : List Conn}
    → is_open new ≡ true
    → fill_free_slot conns new ≡ some conns'
    → Filled conns' conns
unfolding fill_free_slot
fill_free_slot-lem [] new o h = cc
fill_free_slot-lem (conn ∷ conns) new {conns'} o h = elim (Bool-cases (is_open conn)) [
  | inl used ↦ elim (Option-cases (fill_free_slot conns new)) [
    | inl e ↦ absurd (ground (arith, (rw (used, e) at h)))
    | inr (rest, e) ↦
        let same : conn ∷ rest ≡ conns' = ground (arith, (rw (used, e) at h)) in
        let ih = fill_free_slot-lem conns new {conns' = rest} o e in
        subst (λ (cs : List Conn). Filled cs (conn ∷ conns)) same
          (rw used (omega (arith, ih.0)), λ j d h'. at_cons conn rest conns j d (ih.1) h')
  ]
  | inr free ↦
      let same : new ∷ conns ≡ conns' = ground (arith, (rw free at h)) in
      subst (λ (cs : List Conn). Filled cs (conn ∷ conns)) same
        (rw (o, free) (omega arith), λ j d h'. at_free new conn conns free j d h')
]

-- Where `active_conns` is the number of open connections, it is so after a round of gw_accept,
-- whether the table is full, epoll_ctl fails or the connection is taken, and a connection that was
-- open stands where it stood, unchanged.
pub accept_keeps :
    (pool : Connections) (cfd : ℕ) (added : Bool) (now j : ℕ) (d : Conn)
    → pool.active_conns ≡ open_count pool.conns
    → is_open (get_or pool.conns j d) ≡ true
    → let pool' = accept pool cfd added now in
      (pool'.active_conns ≡ open_count pool'.conns)
      × (get_or pool'.conns j d ≡ get_or pool.conns j d)
unfolding accept
accept_keeps pool cfd added now j d e h =
    elim (Option-cases (fill_free_slot pool.conns (accepted cfd now))) [
      | inl full ↦ rw (full, accept) (e, refl)
      | inr (conns, slot) ↦
          let (count, keep) =
            fill_free_slot-lem pool.conns (accepted cfd now) {conns' = conns} refl slot in
          rw (slot, accept)
            (elim (Bool-cases added) [
              | inl yes_added ↦ rw yes_added (omega (arith, count), keep j d h)
              | inr failed ↦ rw failed (e, refl)
            ])
    ]

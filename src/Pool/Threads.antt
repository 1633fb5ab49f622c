-- ===== src/Pool/Threads.antt =====
-- bt_lfpool_alloc and bt_lfpool_free between threads. Each load, store and exchange is a step.
use aspira_broker.Prelude.{
  ℕ, ◌≡◌, ◌≢◌, refl, sym, ◌∙◌, ap, List, [], ◌∷◌, write, if◌then◌else◌, ◌==◌, size_add, some,
  take_out,
}
use aspira_broker.Pool.{Pool}
use aspira_broker.Pool.Stack.{IsPool}

-- Where a thread stands: in bt_lfpool_alloc it has loaded the head, then also the head's next, then
-- taken the node; in bt_lfpool_free it has loaded the old head, then linked its node to it, then put
-- it on top. A call counts itself at its end.
pub data Thread : Type 0 where
  resting : Thread
  saw_head : ℕ → Thread
  saw_next : ℕ → ℕ → Thread
  took : ℕ → Thread
  saw_old : ℕ → ℕ → Thread
  linked : ℕ → ℕ → Thread
  put : Thread

-- Threads are numbered; `owned` lists the nodes that each got from the pool and has not given back.
pub record System : Type 0 where
  pub pool : Pool
  pub thread : ℕ → Thread
  pub owned : ℕ → List ℕ

unfoldable pub start : Pool → System
start pool = record { pool = pool; thread = λ _. Thread.resting; owned = λ _. [] }

-- One thread moves.
abbrev pub moves : System → ℕ → Thread → ℕ → Thread
moves s i pc j = if j == i then pc else s.thread j

-- One thread's nodes change.
abbrev pub owns : System → ℕ → List ℕ → ℕ → List ℕ
owns s i ps j = if j == i then ps else s.owned j

pub data Step (s : System) : System → Type 0 where
  alloc_load :
      (i : ℕ)
      → s.thread i ≡ Thread.resting
      → Step s (record s { thread = moves s i (Thread.saw_head s.pool.head) })
  -- The call returns NULL.
  alloc_empty :
      (i : ℕ)
      → s.thread i ≡ Thread.saw_head 0
      → Step s (record s { thread = moves s i Thread.resting })
  -- `head->next`, an argument of the exchange.
  alloc_next :
      (i h : ℕ)
      → s.thread i ≡ Thread.saw_head h
      → h ≢ 0
      → Step s (record s { thread = moves s i (Thread.saw_next h (s.pool.next h)) })
  -- The exchange succeeds where the head is still `h`.
  alloc_take :
      (i h n : ℕ)
      → s.thread i ≡ Thread.saw_next h n
      → s.pool.head ≡ h
      → Step s (record s { pool = record s.pool { head = n }; thread = moves s i (Thread.took h) })
  -- Else the loop loads the head again.
  alloc_retry :
      (i h n : ℕ)
      → s.thread i ≡ Thread.saw_next h n
      → s.pool.head ≢ h
      → Step s (record s { thread = moves s i (Thread.saw_head s.pool.head) })
  alloc_count :
      (i h : ℕ)
      → s.thread i ≡ Thread.took h
      → Step s (record s {
        pool = record s.pool { alloc_count = size_add s.pool.alloc_count 1 };
        thread = moves s i Thread.resting;
        owned = owns s i (h ∷ s.owned i);
      })
  -- bt_lfpool_free of a node that the thread owns.
  free_load :
      (i k p : ℕ) (rest : List ℕ)
      → s.thread i ≡ Thread.resting
      → take_out k (s.owned i) ≡ some (p, rest)
      → Step s
          (record s { thread = moves s i (Thread.saw_old p s.pool.head); owned = owns s i rest })
  free_link :
      (i p old : ℕ)
      → s.thread i ≡ Thread.saw_old p old
      → Step s (record s {
        pool = record s.pool { next = write s.pool.next p old };
        thread = moves s i (Thread.linked p old);
      })
  free_put :
      (i p old : ℕ)
      → s.thread i ≡ Thread.linked p old
      → s.pool.head ≡ old
      → Step s (record s { pool = record s.pool { head = p }; thread = moves s i Thread.put })
  -- A failed exchange stores the head that it found in `old_head`.
  free_retry :
      (i p old : ℕ)
      → s.thread i ≡ Thread.linked p old
      → s.pool.head ≢ old
      → Step s (record s { thread = moves s i (Thread.saw_old p s.pool.head) })
  free_count :
      (i : ℕ)
      → s.thread i ≡ Thread.put
      → Step s (record s {
        pool = record s.pool { free_count = size_add s.pool.free_count 1 };
        thread = moves s i Thread.resting;
      })

pub data Reach (s : System) : System → Type 0 where
  here : Reach s s
  after : {t u : System} → Reach s t → Step t u → Reach s u

module _ (pool : Pool) (a_some : pool.head ≢ 0) (b_some : pool.next pool.head ≢ 0) where
  -- Thread 0 is in the middle of a call and has read the head `a` and its next `b`, while thread 1
  -- takes `a` and `b` and gives `a` back.
  meanwhile :
      (s : System) × Reach (start pool) s
      × (s.pool.head ≡ pool.head)
      × (s.thread 0 ≡ Thread.saw_next pool.head (pool.next pool.head))
      × (s.thread 1 ≡ Thread.resting)
      × (s.owned 0 ≡ [])
      × (s.owned 1 ≡ pool.next pool.head ∷ [])
  unfolding start
  meanwhile =
      let a = pool.head in
      let b = pool.next a in
      let c = pool.next b in
      let read = after (after here (alloc_load 0 refl)) (alloc_next 0 a refl a_some) in
      let asked = after (after read (alloc_load 1 refl)) (alloc_next 1 a refl a_some) in
      let one = after (after asked (alloc_take 1 a b refl refl)) (alloc_count 1 a refl) in
      let asked' = after (after one (alloc_load 1 refl)) (alloc_next 1 b refl b_some) in
      let two = after (after asked' (alloc_take 1 b c refl refl)) (alloc_count 1 b refl) in
      let back = after (after two (free_load 1 1 a (b ∷ []) refl refl)) (free_link 1 a c refl) in
      let done = after (after back (free_put 1 a c refl refl)) (free_count 1 refl) in
      (_, done, refl, refl, refl, refl, refl)

  -- Then thread 0's exchange succeeds and puts `b` on top, which it takes by its next call.
  twice :
      (s : System) × Reach (start pool) s
      × (s.owned 0 ≡ pool.next pool.head ∷ pool.head ∷ [])
      × (s.owned 1 ≡ pool.next pool.head ∷ [])
  twice =
      let a = pool.head in
      let b = pool.next a in
      let (s, reached, head, reader, other, none_owned, one_owned) = meanwhile in
      let stale = after (after reached (alloc_take 0 a b reader head)) (alloc_count 0 a refl) in
      let asked = after (after stale (alloc_load 0 refl)) (alloc_next 0 b refl b_some) in
      let taken =
        after (after asked (alloc_take 0 b (s.pool.next b) refl refl)) (alloc_count 0 b refl) in
      (_, taken, ap (λ ps. b ∷ a ∷ ps) none_owned, one_owned)

-- The pool can hand one node to two threads: from every pool with at least two free nodes there is a
-- run of two threads, which own no node at first and give back only what they own, after which
-- both own the second node.
pub node_twice :
    (pool : Pool) (a b : ℕ) (rest live : List ℕ)
    → IsPool pool (a ∷ b ∷ rest) live
    → (s : System) × Reach (start pool) s × (s.owned 0 ≡ b ∷ a ∷ []) × (s.owned 1 ≡ b ∷ [])
node_twice pool a b rest live v =
    let c = v.owns.chain in
    let head : pool.head ≡ a = c.0 in
    let second : pool.next pool.head ≡ b = ap pool.next head ∙ c.2.0 in
    let a_some : pool.head ≢ 0 = (λ e. c.1 (sym head ∙ e)) in
    let b_some : pool.next pool.head ≢ 0 = (λ e. c.2.1 (sym second ∙ e)) in
    let (s, reached, first, other) = twice pool a_some b_some in
    (
      s,
      reached,
      first ∙ ap (λ p. p ∷ pool.head ∷ []) second ∙ ap (λ p. b ∷ p ∷ []) head,
      other ∙ ap (λ p. p ∷ []) second,
    )

-- ===== src/Ring/Spsc/Steps.antt =====
-- The loads and stores of BT_SPSC_PUSH and BT_SPSC_POP as steps of two threads.
use aspira_broker.Prelude.{ℕ, ◌≡◌, ◌≢◌, List, [], ◌∷◌, ◌++◌, Buffer, write}
use aspira_broker.Ring.{RingQueue, init, next}

-- Where the producer stands in BT_SPSC_PUSH, with its locals `__h` and `__t`.
pub data Producer (A : Type 0) : Type 0 where
  resting : Producer A
  saw_head : A → ℕ → Producer A
  saw_both : A → ℕ → ℕ → Producer A
  stored : A → ℕ → Producer A

-- Where the consumer stands in BT_SPSC_POP, with its locals and what went through `out`.
pub data Consumer (A : Type 0) : Type 0 where
  resting : Consumer A
  saw_head : ℕ → Consumer A
  saw_both : ℕ → ℕ → Consumer A
  fetched : A → ℕ → Consumer A

-- The ring, both threads, and what has been pushed and popped so far (kept for the statements).
pub record System (A : Type 0) : Type 0 where
  pub ring : RingQueue A
  pub producer : Producer A
  pub consumer : Consumer A
  pub pushed : List A
  pub popped : List A

unfoldable pub start : {A : Type 0} → Buffer A → ℕ → System A
unfolding init
start buf n = record {
  ring = init buf n;
  producer = Producer.resting;
  consumer = Consumer.resting;
  pushed = [];
  popped = [];
}

module _ {A : Type 0} where
  pub data Step (s : System A) : System A → Type 0 where
    -- `__h = load(head, acquire)`
    push_load_head :
        (x : A)
        → s.producer ≡ Producer.resting
        → Step s (record s { producer = Producer.saw_head x s.ring.head })
    -- `__t = load(tail, relaxed)`
    push_load_tail :
        (x : A) (h : ℕ)
        → s.producer ≡ Producer.saw_head x h
        → Step s (record s { producer = Producer.saw_both x h s.ring.tail })
    -- `__next == __h`: the call returns 0.
    push_full :
        (x : A) (h t : ℕ)
        → s.producer ≡ Producer.saw_both x h t
        → next s.ring t ≡ h
        → Step s (record s { producer = Producer.resting })
    -- `buffer[__t] = item`
    push_store :
        (x : A) (h t : ℕ)
        → s.producer ≡ Producer.saw_both x h t
        → next s.ring t ≢ h
        → Step s (record s {
          ring = record s.ring { buffer = write s.ring.buffer t x };
          producer = Producer.stored x (next s.ring t);
        })
    -- `store(tail, __next, release)`
    push_publish :
        (x : A) (n : ℕ)
        → s.producer ≡ Producer.stored x n
        → Step s (record s {
          ring = record s.ring { tail = n };
          producer = Producer.resting;
          pushed = s.pushed ++ x ∷ [];
        })
    -- `__h = load(head, relaxed)`
    pop_load_head :
        s.consumer ≡ Consumer.resting
        → Step s (record s { consumer = Consumer.saw_head s.ring.head })
    -- `__t = load(tail, acquire)`
    pop_load_tail :
        (h : ℕ)
        → s.consumer ≡ Consumer.saw_head h
        → Step s (record s { consumer = Consumer.saw_both h s.ring.tail })
    -- `__h == __t`: the call returns 0.
    pop_empty :
        (h t : ℕ)
        → s.consumer ≡ Consumer.saw_both h t
        → h ≡ t
        → Step s (record s { consumer = Consumer.resting })
    -- `*(out) = buffer[__h]`
    pop_fetch :
        (h t : ℕ)
        → s.consumer ≡ Consumer.saw_both h t
        → h ≢ t
        → Step s (record s { consumer = Consumer.fetched (s.ring.buffer h) h })
    -- `store(head, (__h + 1) & mask, release)`
    pop_publish :
        (x : A) (h : ℕ)
        → s.consumer ≡ Consumer.fetched x h
        → Step s (record s {
          ring = record s.ring { head = next s.ring h };
          consumer = Consumer.resting;
          popped = s.popped ++ x ∷ [];
        })

  pub data Reach (s : System A) : System A → Type 0 where
    here : Reach s s
    after : {t u : System A} → Reach s t → Step t u → Reach s u

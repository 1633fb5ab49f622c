-- ===== src/Disruptor.antt =====
-- src/include/bt_disruptor.h: a ring whose slots carry the sequence number that was last committed in
-- them. The exchange of a claim succeeds at once, as it does for one producer.
pub mod Publish
pub mod Claim
mod Tests
use aspira_broker.Prelude.{
  ℕ, ◌+◌, ◌-◌, ◌%◌, ◌^◌, Bool, true, false, ◌&&◌, not, bit_and, leb, ◌==◌, if◌then◌else◌, size_add,
  size_sub, Buffer, write,
}

-- `(size_t)(-1)`: no sequence number.
abbrev pub unset : ℕ
unset = 2 ^ 64 - 1

-- BT_DISRUPTOR_DEF, whose fields the class template Disruptor repeats.
pub record Disruptor (A : Type 0) : Type 0 where
  pub cursor : ℕ
  pub committed : Buffer ℕ
  pub buffer : Buffer A
  pub mask : ℕ

-- BT_DISRUPTOR_INIT over a buffer of `capacity` elements; its loop reaches all slots.
unfoldable pub init : {A : Type 0} → Buffer A → ℕ → Disruptor A
init buf capacity = record { cursor = 0; committed = λ _. unset; buffer = buf; mask = capacity - 1 }

-- bt_disruptor_claim_c.
unfoldable pub claim_c : {A : Type 0} → Disruptor A → ℕ → ℕ × Disruptor A
claim_c q capacity =
    let mask = capacity - 1 in
    let seq = q.cursor in
    let next = size_add seq 1 in
    let wrap_point = size_sub next capacity in
    let seen = q.committed (bit_and wrap_point mask) in
    if not (seen == unset) && leb seen wrap_point
    then (unset, q)
    else (seq, record q { cursor = next })

-- bt_disruptor_commit_c.
unfoldable pub commit_c : {A : Type 0} → Disruptor A → ℕ → ℕ → Disruptor A
commit_c q seq capacity = record q {
  committed = write q.committed (bit_and seq (capacity - 1)) seq;
}

-- Disruptor::claim, which looks at the slot and does nothing about it.
unfoldable pub claim : {A : Type 0} → Disruptor A → ℕ × Disruptor A
claim q = (q.cursor, record q { cursor = size_add q.cursor 1 })

-- Disruptor::commit.
unfoldable pub commit : {A : Type 0} → Disruptor A → ℕ → Disruptor A
commit q seq = record q { committed = write q.committed (bit_and seq q.mask) seq }

-- Disruptor::publish.
unfoldable pub publish : {A : Type 0} → Disruptor A → A → Bool × Disruptor A
unfolding claim
publish q item =
    let (seq, claimed) = claim q in
    if seq == unset then (false, claimed) else (
      true,
      commit (record claimed { buffer = write claimed.buffer (bit_and seq q.mask) item }) seq,
    )

-- Disruptor::get_highest_committed.
unfoldable pub get_highest_committed : {A : Type 0} → Disruptor A → ℕ
get_highest_committed q = size_sub q.cursor 1

-- Disruptor::get.
unfoldable pub get : {A : Type 0} → Disruptor A → ℕ → A
get q seq = q.buffer (bit_and seq q.mask)

-- Disruptor::is_committed.
unfoldable pub is_committed : {A : Type 0} → Disruptor A → ℕ → Bool
is_committed q seq = q.committed (bit_and seq q.mask) == seq

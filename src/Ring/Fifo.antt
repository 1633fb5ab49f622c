-- ===== src/Ring/Fifo.antt =====
-- What a client of a queue sees: a first-in first-out list of at most `limit` elements.
use aspira_broker.Prelude.{
  ℕ, Bool, true, false, Option, none, some, List, [], ◌∷◌, ◌++◌, length, ltb, if◌then◌else◌,
}

pub data Op (A : Type 0) : Type 0 where
  push : A → Op A
  pop : Op A

-- What one call answers: a push its status, a pop its element.
pub data Reply (A : Type 0) : Type 0 where
  pushed : Bool → Reply A
  popped : Option A → Reply A

module _ {A : Type 0} where
  unfoldable pub enqueue : ℕ → List A → A → Bool × List A
  enqueue limit xs x = if ltb (length xs) limit then (true, xs ++ x ∷ []) else (false, xs)

  unfoldable pub dequeue : List A → Option A × List A
  dequeue [] = (none, [])
  dequeue (x ∷ xs) = (some x, xs)

  unfoldable pub run : ℕ → List A → List (Op A) → List (Reply A)
  run limit xs [] = []
  run limit xs (push x ∷ ops) = let (s, ys) = enqueue limit xs x in pushed s ∷ run limit ys ops
  run limit xs (pop ∷ ops) = let (o, ys) = dequeue xs in popped o ∷ run limit ys ops

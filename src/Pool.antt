-- ===== src/Pool.antt =====
-- src/include/bt_lockfree_pool.h: the list of free nodes that any thread takes from and gives to. A
-- node is its address, and `next` is what the headers of the nodes hold. The calls stand here as one
-- thread runs them; Threads splits them into their loads and exchanges.
pub mod Stack
pub mod Threads
pub mod Template
mod Tests
use aspira_broker.Prelude.{
  ℕ, zero, suc, ◌+◌, ◌%◌, ◌≡◌, Option, none, some, List, [], ◌∷◌, ◌==◌, if◌then◌else◌, size_add,
  Buffer, write, length,
}

-- bt_lfpool_t with the headers of all nodes, bt_lfpool_node_t.
pub record Pool : Type 0 where
  pub head : ℕ
  pub alloc_count : ℕ
  pub free_count : ℕ
  pub next : Buffer ℕ

-- bt_lfpool_init.
unfoldable pub init : Buffer ℕ → Pool
init next = record { head = 0; alloc_count = 0; free_count = 0; next = next }

-- bt_lfpool_alloc.
unfoldable pub alloc : Pool → Option ℕ × Pool
alloc pool = if pool.head == 0 then (none, pool) else (
  some pool.head,
  record pool { head = pool.next pool.head; alloc_count = size_add pool.alloc_count 1 },
)

-- bt_lfpool_free.
unfoldable pub free : Pool → ℕ → Pool
free pool ptr = if ptr == 0 then pool else record pool {
  next = write pool.next ptr pool.head;
  head = ptr;
  free_count = size_add pool.free_count 1;
}

-- The loop of bt_lfpool_bulk_free, which links each node to the one behind it, and the last one to
-- `old_head`.
unfoldable pub link_all : Buffer ℕ → List ℕ → ℕ → Buffer ℕ
link_all next [] old_head = next
link_all next (p ∷ []) old_head = write next p old_head
link_all next (p ∷ q ∷ ps) old_head = link_all (write next p q) (q ∷ ps) old_head

-- bt_lfpool_bulk_free.
unfoldable pub bulk_free : Pool → List ℕ → Pool
bulk_free pool [] = pool
bulk_free pool (p ∷ ps) = record pool {
  next = link_all pool.next (p ∷ ps) pool.head;
  head = p;
  free_count = size_add pool.free_count (length (p ∷ ps));
}

-- bt_lfpool_stats.
unfoldable pub stats : Pool → ℕ × ℕ
stats pool = (pool.alloc_count, pool.free_count)

-- ===== src/Pool/Template.antt =====
-- src/include/bt_lockfree_pool.h: the class template LockFreePool, as one thread runs it. An object is its
-- address, `size` its number of bytes, and `words` what memory holds.
pub mod Overlap
mod Tests
use aspira_broker.Prelude.{
  ℕ, ◌+◌, ◌*◌, ◌/◌, Option, none, some, ◌==◌, if◌then◌else◌, size_add, Buffer, write,
}

-- LockFreePool<T>, with the memory.
pub record LockFreePool : Type 0 where
  pub head : ℕ
  pub alloc_count : ℕ
  pub free_count : ℕ
  pub words : Buffer ℕ

-- A pool as its initialisers leave it.
abbrev pub constructed : Buffer ℕ → LockFreePool
constructed words = record { head = 0; alloc_count = 0; free_count = 0; words = words }

-- Where the field `next` of a node stands: behind the object, as `data` comes first, at the next
-- multiple of the size of a pointer.
abbrev pub next_of : ℕ → ℕ → ℕ
next_of size node = node + (size + 7) / 8 * 8

-- LockFreePool::allocate.
unfoldable pub allocate : ℕ → LockFreePool → Option ℕ × LockFreePool
allocate size pool = if pool.head == 0 then (none, pool) else (
  some pool.head,
  record pool {
    head = pool.words (next_of size pool.head);
    alloc_count = size_add pool.alloc_count 1;
  },
)

-- LockFreePool::release.
unfoldable pub release : ℕ → LockFreePool → ℕ → LockFreePool
release size pool ptr = if ptr == 0 then pool else record pool {
  words = write pool.words (next_of size ptr) pool.head;
  head = ptr;
  free_count = size_add pool.free_count 1;
}

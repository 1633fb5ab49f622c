-- ===== src/HashMap.antt =====
-- src/include/bt_hashmap.h: open addressing with linear probing over a power of two of slots.
-- A table has at most 2 ^ 60 slots of 16 bytes, so counting up does not wrap; counting down wraps as
-- `size_t` does. A pointer is a number: NULL is 0 and BT_HASHMAP_TOMBSTONE is 1. Where the source calls calloc,
-- the argument `grants` says whether it returns memory.
pub mod Inv
pub mod Lookup
pub mod Counts
pub mod Room
pub mod Resize
mod Tests
use aspira_broker.Prelude.{
  ℕ, zero, suc, ◌+◌, ◌-◌, ◌*◌, Bool, true, false, not, ◌&&◌, ◌||◌, Option, none, some, bit_and,
  size_add, size_sub, size_mod, ◌%◌, leb, ltb, ◌==◌, if◌then◌else◌, Buffer, write,
}

abbrev pub null : ℕ
null = 0

abbrev pub tombstone : ℕ
tombstone = 1

-- bt_hashmap_entry_t.
pub record Entry : Type 0 where
  pub key : ℕ
  pub value : ℕ

-- bt_hashmap_t, less `owned`, which only bt_hashmap_destroy reads.
pub record HashMap : Type 0 where
  pub entries : Buffer Entry
  pub capacity : ℕ
  pub count : ℕ
  pub tombstones : ℕ

-- Memory as calloc returns it.
abbrev pub cleared : Buffer Entry
cleared _ = record { key = 0; value = null }

-- `_hm_probe`.
unfoldable pub probe : ℕ → ℕ → ℕ → ℕ
probe key i cap = bit_and (size_add key i) (cap - 1)

-- The loop of bt_hashmap_init that doubles `cap` from 8 up to the wanted capacity, on fuel.
round_up : ℕ → ℕ → ℕ → Option ℕ
round_up zero cap wanted = none
round_up (suc f) cap wanted =
    let rest = round_up f (cap * 2 % size_mod) wanted in if ltb cap wanted then rest else some cap

-- bt_hashmap_init. A capacity above 2 ^ 63 makes the loop run for ever, and is `none`, as is every
-- failure.
pub init : Bool → ℕ → Option HashMap
unfolding round_up
init grants wanted = if ltb wanted 8 then none else (elim (round_up 64 8 wanted) [
  | none ↦ none
  | some cap ↦
      if grants
      then some (record { entries = cleared; capacity = cap; count = 0; tombstones = 0 })
      else none
])

-- Whether a slot may take a new entry.
abbrev pub is_open : Entry → Bool
is_open e = e.value == null || e.value == tombstone

-- What bt_hashmap_put does at the slot that it chose. The test for a tombstone reads the value that
-- has just been stored.
abbrev pub fill : HashMap → ℕ → ℕ → ℕ → HashMap
fill m idx key value = record m {
  entries = write m.entries idx (record { key = key; value = value });
  count = m.count + 1;
  tombstones = if value == tombstone then size_sub m.tombstones 1 else m.tombstones;
}

-- The probing loop of bt_hashmap_put, from round `i` on with `n` rounds left.
pub put_from : HashMap → ℕ → ℕ → ℕ → ℕ → Bool × HashMap
put_from m key value i zero = (false, m)
put_from m key value i (suc n) =
    let idx = probe key i m.capacity in
    let e = m.entries idx in
    let rest = put_from m key value (i + 1) n in
    if is_open e then (true, fill m idx key value) else if e.key == key then (false, m) else rest

-- The loop of `_hm_resize` over the old entries, from index `i` on with `n` left, where `put` is
-- bt_hashmap_put.
pub reinsert : (HashMap → ℕ → ℕ → Bool × HashMap) → Buffer Entry → ℕ → ℕ → HashMap → HashMap
reinsert put old i zero m = m
reinsert put old i (suc n) m =
    let e = old i in reinsert put old (i + 1) n (if is_open e then m else (put m e.key e.value).1)

-- Whether bt_hashmap_put grows the table first.
abbrev pub is_loaded : HashMap → Bool
is_loaded m = leb (m.capacity * 3) ((m.count + m.tombstones) * 4)

-- bt_hashmap_put and `_hm_resize` call one another: `depth` bounds how deep. At depth 0 a
-- call that would grow the table answers as if calloc had failed.
pub put_deep : ℕ → Bool → HashMap → ℕ → ℕ → Bool × HashMap
unfolding put_from reinsert
put_deep zero grants m key value =
    if value == null || is_loaded m then (false, m) else put_from m key value 0 m.capacity
put_deep (suc depth) grants m key value =
    let fresh : HashMap = record {
      entries = cleared;
      capacity = m.capacity * 2;
      count = 0;
      tombstones = 0;
    } in
    let bigger = reinsert (put_deep depth grants) m.entries 0 m.capacity fresh in
    if value == null
    then (false, m)
    else if is_loaded m
    then (if grants then put_from bigger key value 0 bigger.capacity else (false, m))
    else put_from m key value 0 m.capacity

-- bt_hashmap_put.
pub put : Bool → HashMap → ℕ → ℕ → Bool × HashMap
unfolding put_deep
put grants m key value = put_deep 1 grants m key value

-- The probing loop of bt_hashmap_get.
pub get_from : HashMap → ℕ → ℕ → ℕ → Option ℕ
get_from m key i zero = none
get_from m key i (suc n) =
    let e = m.entries (probe key i m.capacity) in
    let rest = get_from m key (i + 1) n in
    if e.value == null
    then none
    else if not (e.value == tombstone) && e.key == key
    then some e.value
    else rest

-- bt_hashmap_get; `none` is NULL.
pub get : HashMap → ℕ → Option ℕ
unfolding get_from
get m key = get_from m key 0 m.capacity

-- The probing loop of bt_hashmap_remove.
pub remove_from : HashMap → ℕ → ℕ → ℕ → Bool × HashMap
remove_from m key i zero = (false, m)
remove_from m key i (suc n) =
    let idx = probe key i m.capacity in
    let e = m.entries idx in
    let rest = remove_from m key (i + 1) n in
    if e.value == null
    then (false, m)
    else if not (e.value == tombstone) && e.key == key
    then (
      true,
      record m {
        entries = write m.entries idx (record e { value = tombstone });
        count = size_sub m.count 1;
        tombstones = m.tombstones + 1;
      },
    )
    else rest

-- bt_hashmap_remove.
pub remove : HashMap → ℕ → Bool × HashMap
unfolding remove_from
remove m key = remove_from m key 0 m.capacity

-- bt_hashmap_size and bt_hashmap_clear.
pub size : HashMap → ℕ
size m = m.count

pub clear : HashMap → HashMap
clear m = record m { entries = cleared; count = 0; tombstones = 0 }

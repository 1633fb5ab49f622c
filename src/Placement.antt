-- ===== src/Placement.antt =====
-- src/utils/numa.c and src/utils/cpu_affinity.c: memory from a NUMA node and from huge pages, and where
-- threads and memory are. What libnuma and the system calls answer are parameters; a call
-- gives the list of what it did to memory. The library is built for Linux.
pub mod Pages
mod Tests
use aspira_broker.Prelude.{
  ℕ, zero, suc, ◌+◌, ◌-◌, ◌*◌, ◌/◌, Bool, true, false, ◌&&◌, Option, none, some, List, [], ◌∷◌,
  ◌++◌, ltb, ◌==◌, if◌then◌else◌, size_add,
}

-- What happens to memory: a node's or the system's pages come, a byte is cleared, advice is given, and
-- pages go.
pub data Effect : Type 0 where
  gets_on_node : ℕ → ℕ → ℕ → Effect
  maps : ℕ → ℕ → Effect
  clears : ℕ → Effect
  advises : ℕ → ℕ → Effect
  gives_back : ℕ → ℕ → Effect
  unmaps : ℕ → ℕ → Effect

-- The loop that clears one byte of each page, from offset `i` on; its fuel is one more than the size.
unfoldable pub touch : ℕ → ℕ → ℕ → ℕ → ℕ → List Effect
touch zero base i size step = []
touch (suc fuel) base i size step =
    let rest = touch fuel base (size_add i step) size step in
    if ltb i size then clears (size_add base i) ∷ rest else []

-- A size rounded up to whole pages and to whole huge pages; `x & ~4095` is `x / 4096 * 4096`.
abbrev pub page : ℕ
page = 4096

abbrev pub paged : ℕ → ℕ
paged size = size_add size (page - 1) / page * page

abbrev pub huge_page : ℕ
huge_page = 2 * 1024 * 1024

abbrev pub huge_paged : ℕ → ℕ
huge_paged size = size_add size (huge_page - 1) / huge_page * huge_page

-- What libnuma and the kernel answer: whether there is NUMA, what numa_alloc_onnode and mmap give, what
-- is configured, and what sched_getcpu and numa_node_of_cpu say.
pub record Numa : Type 0 where
  pub available : Bool
  pub on_node : Option ℕ
  pub mapped : Option ℕ
  pub configured_nodes : ℕ
  pub current_cpu : ℕ
  pub node_of : ℕ → ℕ

-- bt_numa_num_nodes.
abbrev pub num_nodes : Numa → ℕ
num_nodes numa = if numa.available then numa.configured_nodes else 1

-- bt_numa_node_of_cpu and bt_numa_current_node.
abbrev pub node_of_cpu : Numa → ℕ → ℕ
node_of_cpu numa cpu = if numa.available then numa.node_of cpu else 0

abbrev pub current_node : Numa → ℕ
current_node numa = node_of_cpu numa numa.current_cpu

-- Memory that has come, with each of its pages touched.
abbrev pub touched : ℕ → ℕ → Effect → Option ℕ × List Effect
touched ptr aligned first = (some ptr, first ∷ touch (aligned + 1) ptr 0 aligned page)

-- The fallback of bt_numa_alloc.
unfoldable pub map_pages : Numa → ℕ → Option ℕ × List Effect
map_pages numa aligned = elim numa.mapped [
  | none ↦ (none, [])
  | some ptr ↦ touched ptr aligned (maps ptr aligned)
]

-- bt_numa_alloc and bt_numa_alloc_local.
unfoldable pub numa_alloc : Numa → ℕ → ℕ → Option ℕ × List Effect
numa_alloc numa size node =
    let aligned = paged size in
    if numa.available
    then (elim numa.on_node [
      | none ↦ map_pages numa aligned
      | some ptr ↦ touched ptr aligned (gets_on_node ptr aligned node)
    ])
    else map_pages numa aligned

abbrev pub numa_alloc_local : Numa → ℕ → Option ℕ × List Effect
numa_alloc_local numa size = numa_alloc numa size (current_node numa)

-- bt_numa_free.
unfoldable pub numa_free : Numa → Option ℕ → ℕ → List Effect
numa_free numa ptr size = elim ptr [
  | none ↦ []
  | some p ↦ if numa.available then gives_back p (paged size) ∷ [] else unmaps p (paged size) ∷ []
]

-- bt_numa_node_of_ptr, where none stands for a negative answer: what move_pages and get_mempolicy say.
unfoldable pub node_of_ptr : Numa → Option ℕ → Option ℕ → Option ℕ
node_of_ptr numa moved policy =
    if numa.available then (elim moved [ none ↦ policy | some node ↦ some node ]) else none

-- bt_numa_bind_thread: whether it returns 0, and the node that the thread is bound to.
unfoldable pub bind_thread : Numa → Bool → ℕ → Bool × Option ℕ
bind_thread numa grants node = if numa.available && grants then (true, some node) else (false, none)

-- bt_numa_stats_t and bt_numa_node_stats: none where it returns -1.
pub record NumaStats : Type 0 where
  pub total_bytes : ℕ
  pub free_bytes : ℕ
  pub alloc_bytes : ℕ

unfoldable pub node_stats : Numa → ℕ → ℕ → Option NumaStats
node_stats numa total_size free_size =
    if numa.available
    then some (record { total_bytes = total_size; free_bytes = free_size; alloc_bytes = 0 })
    else none

-- bt_cpu_alloc_hugepages; the two arguments are what the two calls of mmap answer.
unfoldable pub alloc_hugepages : Option ℕ → Option ℕ → ℕ → Option ℕ × List Effect
alloc_hugepages huge usual size =
    let aligned = huge_paged size in
    elim huge [
      | some ptr ↦ (some ptr, maps ptr aligned ∷ [])
      | none ↦ elim usual [
        | some ptr ↦ (some ptr, maps ptr aligned ∷ advises ptr aligned ∷ [])
        | none ↦ (none, [])
      ]
    ]

-- bt_cpu_free_hugepages.
unfoldable pub free_hugepages : Option ℕ → ℕ → List Effect
free_hugepages ptr size = elim ptr [ none ↦ [] | some p ↦ unmaps p (huge_paged size) ∷ [] ]

-- bt_cpu_madvise_hugepage and bt_cpu_prefault; `page_size` is what sysconf says.
unfoldable pub madvise_hugepage : Option ℕ → ℕ → List Effect
madvise_hugepage ptr size = elim ptr [
  | none ↦ []
  | some p ↦ if ltb 0 size then advises p size ∷ [] else []
]

unfoldable pub prefault : ℕ → Option ℕ → ℕ → List Effect
prefault page_size ptr size = elim ptr [
  | none ↦ []
  | some p ↦ if size == 0 then [] else touch (size + 1) p 0 size page_size
]

-- ===== src/Placement/Tests.antt =====
-- Runs of the allocators, and the instance of their theorem.
use aspira_broker.Prelude.{
  ℕ, ◌+◌, ◌*◌, ◌/◌, ◌≤◌, ◌<◌, ◌≡◌, refl, arith, true, false, none, some, [], ◌∷◌,
}
use aspira_broker.Placement.{
  gets_on_node, maps, clears, advises, gives_back, unmaps, touch, page, Numa, num_nodes,
  current_node, map_pages, numa_alloc, numa_alloc_local, numa_free, node_of_ptr, bind_thread,
  node_stats, alloc_hugepages, free_hugepages, madvise_hugepage, prefault,
}
use aspira_broker.Placement.Pages.{Prefaulted, numa_alloc-Prefaulted}

program : Unit {0}
unfolding touch map_pages numa_alloc numa_free node_of_ptr bind_thread node_stats alloc_hugepages
    free_hugepages madvise_hugepage prefault
program = tt

abbrev two_nodes : Numa
two_nodes = record {
  available = true;
  on_node = some 8192;
  mapped = none;
  configured_nodes = 2;
  current_cpu = 9;
  node_of = λ cpu. cpu / 8;
}

nodes : (num_nodes two_nodes ≡ 2) × (current_node two_nodes ≡ 1)
nodes = (refl, refl)

-- 5,000 bytes are two pages of the node of the thread.
local_pages :
    numa_alloc_local two_nodes 5000
    ≡ (some 8192, gets_on_node 8192 8192 1 ∷ clears 8192 ∷ clears 12288 ∷ [])
unfolding program
local_pages = refl

given_back : numa_free two_nodes (some 8192) 5000 ≡ gives_back 8192 8192 ∷ []
unfolding program
given_back = refl

policy_asked :
    (node_of_ptr two_nodes none (some 1) ≡ some 1) × (bind_thread two_nodes false 1 ≡ (false, none))
unfolding program
policy_asked = (refl, refl)

stats :
    node_stats two_nodes 100 40
    ≡ some (record { total_bytes = 100; free_bytes = 40; alloc_bytes = 0 })
unfolding program
stats = refl

usual_pages :
    alloc_hugepages none (some 4096) 10 ≡ (some 4096, maps 4096 2097152 ∷ advises 4096 2097152 ∷ [])
unfolding program
usual_pages = refl

unmapped_whole : free_hugepages (some 4096) 10 ≡ unmaps 4096 2097152 ∷ []
unfolding program
unmapped_whole = refl

ten_thousand : prefault 4096 (some 0) 10000 ≡ clears 0 ∷ clears 4096 ∷ clears 8192 ∷ []
unfolding program
ten_thousand = refl

advised : madvise_hugepage (some 7) 0 ≡ []
unfolding program
advised = refl

numa_alloc-Prefaulted_example :
    (k : ℕ) × (5000 ≤ k * page)
    × (k * page < 5000 + page)
    × Prefaulted two_nodes k 1 (numa_alloc two_nodes 5000 1)
numa_alloc-Prefaulted_example =
    numa_alloc-Prefaulted two_nodes 5000 1 (omega arith) (omega arith) tt

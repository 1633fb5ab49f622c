-- ===== src/Pool/Tests.antt =====
-- Runs of the pool, and the instances of its theorems.
use aspira_broker.Prelude.{ℕ, ◌≡◌, ◌≢◌, refl, arith, some, List, [], ◌∷◌, All, Distinct}
use aspira_broker.Pool.{Pool, init, link_all, bulk_free}
use aspira_broker.Pool.Stack.{
  IsPool, take_node, give_node, run, stack_run, calls_refine, bulk_free-IsPool,
}
use aspira_broker.Pool.Threads.{System, Reach, start, node_twice}

abbrev empty : Pool
unfolding init
empty = init (λ _. 0)

empty-IsPool : IsPool empty [] []
unfolding empty
empty-IsPool = record {
  owns = record { chain = refl; free_Distinct = tt; live_Distinct = tt; separate = tt };
  live_nonzero = tt;
}

abbrev nodes : List ℕ
nodes = 8 ∷ 16 ∷ 24 ∷ []

nodes-nonzero : All (λ p. p ≢ 0) nodes
nodes-nonzero = (omega arith, (omega arith, (omega arith, tt)))

nodes-Distinct : Distinct nodes
nodes-Distinct = ((omega arith, (omega arith, tt)), ((omega arith, tt), (tt, tt)))

abbrev three : Pool
unfolding init link_all bulk_free empty
three = bulk_free empty nodes

three-IsPool : IsPool three nodes []
unfolding three
three-IsPool =
    bulk_free-IsPool empty nodes [] [] empty-IsPool nodes-nonzero nodes-Distinct
      (tt, (tt, (tt, tt))) tt

calls_refine_example :
    run (take_node ∷ take_node ∷ give_node 1 ∷ take_node ∷ []) three []
    ≡ some 8 ∷ some 16 ∷ some 8 ∷ []
unfolding stack_run
calls_refine_example =
    calls_refine (take_node ∷ take_node ∷ give_node 1 ∷ take_node ∷ []) three nodes [] three-IsPool

node_twice_example :
    (s : System) × Reach (start three) s × (s.owned 0 ≡ 16 ∷ 8 ∷ []) × (s.owned 1 ≡ 16 ∷ [])
node_twice_example = node_twice three 8 16 (24 ∷ []) [] three-IsPool

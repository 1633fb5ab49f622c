-- ===== src/Pool/Stack.antt =====
-- One thread's calls on the pool work on a stack of nodes that the pool owns.
use aspira_broker.Prelude.{
  ℕ, zero, suc, ◌≡◌, ◌≢◌, refl, sym, ap, ◌∙◌, ◌⊎◌, inl, inr, Option-cases, arith, Option, none,
  some, List, [], ◌∷◌, ◌++◌, eq→==, ne→==, Buffer, write, length, Apart, Distinct, All, Chain,
  Chain-write, Owns, Owns-pop, Owns-give, take_out, take_out-All,
}
use aspira_broker.Pool.{Pool, alloc, free, link_all, bulk_free}

-- Nothing of `xs` is in `ys`.
abbrev pub AllApart : List ℕ → List ℕ → Type 0
AllApart xs ys = All (λ x. Apart x ys) xs

-- What the calls find: nodes that are not null, apart from one another.
pub record IsPool (pool : Pool) (stack live : List ℕ) : Type 0 where
  pub owns : Owns pool.next pool.head stack live
  pub live_nonzero : All (λ p. p ≢ 0) live

-- Linking changes the linked nodes only.
link_all-other :
    (next : Buffer ℕ) (p : ℕ) (ps : List ℕ) (head r : ℕ)
    → Apart r (p ∷ ps)
    → link_all next (p ∷ ps) head r ≡ next r
unfolding link_all
link_all-other next p [] head r a = rw (ne→== r p a.0) refl
link_all-other next p (q ∷ ps) head r a =
    link_all-other (write next p q) q ps head r a.1 ∙ rw (ne→== r p a.0) refl

Apart-append : (x : ℕ) (xs ys : List ℕ) → Apart x xs → Apart x ys → Apart x (xs ++ ys)
Apart-append x [] ys a b = b
Apart-append x (z ∷ zs) ys a b = (a.0, Apart-append x zs ys a.1 b)

-- What linking some nodes to a list gives: the nodes in order, followed by the list.
link_all-Chain :
    (next : Buffer ℕ) (p : ℕ) (ps : List ℕ) (head : ℕ) (stack : List ℕ)
    → All (λ q. q ≢ 0) (p ∷ ps)
    → Distinct (p ∷ ps)
    → AllApart (p ∷ ps) stack
    → Chain next head stack
    → Chain (link_all next (p ∷ ps) head) p (p ∷ ps ++ stack)
unfolding link_all
link_all-Chain next p [] head stack nz d a c =
    (refl, nz.0, rw (eq→== p p refl) (Chain-write next p head head stack a.0 c))
link_all-Chain next p (q ∷ ps) head stack nz d a c =
    let later =
      link_all-Chain (write next p q) q ps head stack nz.1 d.1 a.1
        (Chain-write next p q head stack a.0 c) in
    let linked : link_all (write next p q) (q ∷ ps) head p ≡ q =
      link_all-other (write next p q) q ps head p d.0 ∙ rw (eq→== p p refl) refl in
    (refl, nz.0, rw linked later)

-- A node that is no part of what is linked keeps its owner.
All-Apart_join :
    (xs live stack : List ℕ) → AllApart live xs → AllApart live stack → AllApart live (xs ++ stack)
All-Apart_join xs [] stack a b = tt
All-Apart_join xs (y ∷ ys) stack a b =
    (Apart-append y xs stack a.0 b.0, All-Apart_join xs ys stack a.1 b.1)

Distinct-append :
    (xs ys : List ℕ) → Distinct xs → Distinct ys → AllApart xs ys → Distinct (xs ++ ys)
Distinct-append [] ys d f a = f
Distinct-append (x ∷ xs) ys d f a = (Apart-append x xs ys d.0 a.0, Distinct-append xs ys d.1 f a.1)

-- bt_lfpool_alloc hands out the node on top of the stack, or nothing when the stack is empty.
pub alloc-IsPool :
    (pool : Pool) (stack live : List ℕ)
    → IsPool pool stack live
    → ((alloc pool ≡ (none, pool)) × (stack ≡ []))
      ⊎ ((p : ℕ) × (rest : List ℕ) × ((alloc pool).0 ≡ some p)
          × (stack ≡ p ∷ rest)
          × IsPool (alloc pool).1 rest (p ∷ live))
unfolding alloc
alloc-IsPool pool [] live v = inl (rw (eq→== pool.head 0 v.owns.chain) refl, refl)
alloc-IsPool pool (p ∷ rest) live v =
    let head : pool.head ≡ p = v.owns.chain.0 in
    let some_free = ne→== pool.head 0 (λ e. v.owns.chain.1 (sym head ∙ e)) in
    let owned : Owns pool.next (pool.next pool.head) rest (p ∷ live) = rw head (Owns-pop v.owns) in
    inr (
      p,
      rest,
      rw some_free (ap some head),
      refl,
      rw some_free record { owns = owned; live_nonzero = (v.owns.chain.1, v.live_nonzero) },
    )

-- bt_lfpool_free puts a node that is in use on top of the stack.
pub free-IsPool :
    (pool : Pool) (stack live : List ℕ) (i : ℕ) {p : ℕ} {rest : List ℕ}
    → IsPool pool stack live
    → take_out i live ≡ some (p, rest)
    → IsPool (free pool p) (p ∷ stack) rest
unfolding free
free-IsPool pool stack live i {p} {rest} v h =
    let nz = take_out-All (λ q. q ≢ 0) i live h v.live_nonzero in
    rw (ne→== p 0 nz.0) record { owns = Owns-give i h nz.0 v.owns; live_nonzero = nz.1 }

-- bt_lfpool_bulk_free puts nodes that nobody owns on top of the stack, in their order.
pub bulk_free-IsPool :
    (pool : Pool) (ps stack live : List ℕ)
    → IsPool pool stack live
    → All (λ p. p ≢ 0) ps
    → Distinct ps
    → AllApart ps stack
    → AllApart live ps
    → IsPool (bulk_free pool ps) (ps ++ stack) live
unfolding bulk_free
bulk_free-IsPool pool [] stack live v nz d a b = v
bulk_free-IsPool pool (p ∷ ps) stack live v nz d a b = record {
  owns = record {
    chain = link_all-Chain pool.next p ps pool.head stack nz d a v.owns.chain;
    free_Distinct = Distinct-append (p ∷ ps) stack d v.owns.free_Distinct a;
    live_Distinct = v.owns.live_Distinct;
    separate = All-Apart_join (p ∷ ps) live stack b v.owns.separate;
  };
  live_nonzero = v.live_nonzero;
}

-- A thread takes a node or gives back the one at an index of those it holds.
pub data Call : Type 0 where
  take_node : Call
  give_node : ℕ → Call

-- The answers of bt_lfpool_alloc in a run of calls, of a thread that holds `live`.
unfoldable pub run : List Call → Pool → List ℕ → List (Option ℕ)
run [] pool live = []
run (take_node ∷ cs) pool live =
    let (ptr, pool') = alloc pool in
    ptr ∷ run cs pool' (elim ptr [ none ↦ live | some p ↦ p ∷ live ])
run (give_node i ∷ cs) pool live = elim (take_out i live) [
  | none ↦ run cs pool live
  | some (p, rest) ↦ run cs (free pool p) rest
]

-- The answers of a stack to the same calls.
unfoldable pub stack_run : List Call → List ℕ → List ℕ → List (Option ℕ)
stack_run [] stack live = []
stack_run (take_node ∷ cs) [] live = none ∷ stack_run cs [] live
stack_run (take_node ∷ cs) (p ∷ stack) live = some p ∷ stack_run cs stack (p ∷ live)
stack_run (give_node i ∷ cs) stack live = elim (take_out i live) [
  | none ↦ stack_run cs stack live
  | some (p, rest) ↦ stack_run cs (p ∷ stack) rest
]

-- The calls of one thread answer as the stack of the pool's nodes does.
pub calls_refine :
    (cs : List Call) (pool : Pool) (stack live : List ℕ)
    → IsPool pool stack live
    → run cs pool live ≡ stack_run cs stack live
unfolding run stack_run
calls_refine [] pool stack live v = refl
calls_refine (take_node ∷ cs) pool [] live v = elim (alloc-IsPool pool [] live v) [
  | inl (e, f) ↦
      rw (ap (λ r. r.0) e, ap (λ r. r.1) e) (ap (λ r. none ∷ r) (calls_refine cs pool [] live v))
  | inr (p, rest, e, f, w) ↦ absurd (ground (arith, f))
]
calls_refine (take_node ∷ cs) pool (q ∷ stack) live v =
    elim (alloc-IsPool pool (q ∷ stack) live v) [
      | inl (e, f) ↦ absurd (ground (arith, f))
      | inr (p, rest, e, f, w) ↦
          let top : p ≡ q = ground (arith, f) in
          let below : rest ≡ stack = ground (arith, f) in
          rw (e, sym top, sym below)
            (ap (λ r. some p ∷ r) (calls_refine cs (alloc pool).1 rest (p ∷ live) w))
    ]
calls_refine (give_node i ∷ cs) pool stack live v = elim (Option-cases (take_out i live)) [
  | inl e ↦ rw (e, run, stack_run) (calls_refine cs pool stack live v)
  | inr ((p, rest), e) ↦
      rw (e, run, stack_run)
        (calls_refine cs (free pool p) (p ∷ stack) rest (free-IsPool pool stack live i v e))
]

-- `n` calls of bt_lfpool_alloc.
abbrev pub takes : ℕ → List Call
takes zero = []
takes (suc n) = take_node ∷ takes n

abbrev pub all_some : List ℕ → List (Option ℕ)
all_some [] = []
all_some (p ∷ ps) = some p ∷ all_some ps

takes-stack :
    (ps stack live : List ℕ) → stack_run (takes (length ps)) (ps ++ stack) live ≡ all_some ps
unfolding stack_run
takes-stack [] stack live = refl
takes-stack (p ∷ ps) stack live = ap (λ r. some p ∷ r) (takes-stack ps stack (p ∷ live))

-- The nodes of a bulk free come out again one by one and in their order.
pub bulk_free-run :
    (pool : Pool) (ps stack live : List ℕ)
    → IsPool pool stack live
    → All (λ p. p ≢ 0) ps
    → Distinct ps
    → AllApart ps stack
    → AllApart live ps
    → run (takes (length ps)) (bulk_free pool ps) live ≡ all_some ps
bulk_free-run pool ps stack live v nz d a b =
    calls_refine (takes (length ps)) (bulk_free pool ps) (ps ++ stack) live
      (bulk_free-IsPool pool ps stack live v nz d a b)
    ∙ takes-stack ps stack live

-- ===== src/Prelude/Chains.antt =====
-- Singly linked lists in memory: node addresses whose first word is the address of the next node, 0
-- at the end; and who owns the nodes of such a list.
use Prim.Native.Nat.{ℕ}
use mathlib.Core.Path.{◌≡◌, refl, sym}
use mathlib.Core.Logic.{◌≢◌}
use mathlib.Core.Option.{some}
use mathlib.Core.List.{List, [], ◌∷◌}
use aspira_broker.Prelude.Tests.{ne→==, eq→==}
use aspira_broker.Prelude.Buffers.{Buffer, write}
use aspira_broker.Prelude.Members.{
  Apart, Distinct, All, take_out, All-mono, All-Apart, Apart-All, take_out-All, take_out-Distinct,
  All-both,
}

-- The nodes of the linked list that starts at `head`.
abbrev pub Chain : Buffer ℕ → ℕ → List ℕ → Type 0
Chain words head [] = head ≡ 0
Chain words head (p ∷ ps) = (head ≡ p) × (p ≢ 0) × Chain words (words p) ps

-- Storing into a node off the list leaves the list.
pub Chain-write :
    (words : Buffer ℕ) (p v head : ℕ) (ps : List ℕ)
    → Apart p ps
    → Chain words head ps
    → Chain (write words p v) head ps
Chain-write words p v head [] a c = c
Chain-write words p v head (q ∷ qs) a c =
    (c.0, c.1, rw (ne→== q p (λ e. a.0 (sym e))) (Chain-write words p v (words q) qs a.1 c.2))

-- The nodes `free` are those of the list at `head`, the nodes `live` are not on it, and no node stands
-- among them twice.
pub record Owns (words : Buffer ℕ) (head : ℕ) (free live : List ℕ) : Type 0 where
  pub chain : Chain words head free
  pub free_Distinct : Distinct free
  pub live_Distinct : Distinct live
  pub separate : All (λ p. Apart p free) live

-- Taking the first node off.
pub Owns-pop :
    {words : Buffer ℕ} {head : ℕ} {p : ℕ} {free live : List ℕ}
    → Owns words head (p ∷ free) live
    → Owns words (words p) free (p ∷ live)
Owns-pop {words} {head} {p} {free} {live} o = record {
  chain = o.chain.2;
  free_Distinct = o.free_Distinct.1;
  live_Distinct = (
    All-Apart p live (All-mono (λ q. Apart q (p ∷ free)) (λ q. q ≢ p) live (λ q a. a.0) o.separate),
    o.live_Distinct,
  );
  separate = (
    o.free_Distinct.0,
    All-mono (λ q. Apart q (p ∷ free)) (λ q. Apart q free) live (λ q a. a.1) o.separate,
  );
}

-- Putting a node on that nobody owns.
pub Owns-push :
    {words : Buffer ℕ} {head : ℕ} (p : ℕ) {free live : List ℕ}
    → p ≢ 0
    → Apart p free
    → Apart p live
    → Owns words head free live
    → Owns (write words p head) p (p ∷ free) live
Owns-push {words} {head} p {free} {live} nz a b o = record {
  chain = (refl, nz, rw (eq→== p p refl) (Chain-write words p head head free a o.chain));
  free_Distinct = (a, o.free_Distinct);
  live_Distinct = o.live_Distinct;
  separate = All-both (λ q. q ≢ p) (λ q. Apart q free) live (Apart-All p live b) o.separate;
}

-- Dropping a live node from the account.
pub Owns-drop :
    {words : Buffer ℕ} {head : ℕ} {free live : List ℕ} (i : ℕ) {p : ℕ} {rest : List ℕ}
    → take_out i live ≡ some (p, rest)
    → Owns words head free live
    → Owns words head free rest
Owns-drop {words} {head} {free} {live} i {p} {rest} h o = record {
  chain = o.chain;
  free_Distinct = o.free_Distinct;
  live_Distinct = (take_out-Distinct i live h o.live_Distinct).1;
  separate = (take_out-All (λ q. Apart q free) i live h o.separate).1;
}

-- Putting a live node back.
pub Owns-give :
    {words : Buffer ℕ} {head : ℕ} {free live : List ℕ} (i : ℕ) {p : ℕ} {rest : List ℕ}
    → take_out i live ≡ some (p, rest)
    → p ≢ 0
    → Owns words head free live
    → Owns (write words p head) p (p ∷ free) rest
Owns-give {words} {head} {free} {live} i {p} {rest} h nz o =
    Owns-push p nz (take_out-All (λ q. Apart q free) i live h o.separate).0
      (take_out-Distinct i live h o.live_Distinct).0 (Owns-drop i h o)

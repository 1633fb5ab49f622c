-- ===== src/Main/Pipeline/Turned.antt =====
-- src/main.c: what is stopped is what was started, turned round.
use mathlib.Core.List.{Perm, perm_append_comm}
use mathlib.Core.List.Perm
use mathlib.Core.Path.{subst}
use aspira_broker.Prelude.{
  ℕ, ◌≡◌, inl, inr, refl, Bool, List, [], ◌∷◌, ◌++◌, Bool-cases, append_assoc,
}
use aspira_broker.Main.Cores.{
  Part, gateway, order_gate, oms, sequencer, market_data, clearing, risk_worker, matcher,
}
use aspira_broker.Main.Pipeline.{workers, created, start_first, start_then, stop_order}

module _ (creates : Part → Bool) where
  pub created-append :
      (xs ys : List Part) → created creates (xs ++ ys) ≡ created creates xs ++ created creates ys
  created-append [] ys = refl
  created-append (x ∷ xs) ys = elim (Bool-cases (creates x)) [
    | inl e ↦ rw (e, created-append xs ys) refl
    | inr e ↦ rw (e, created-append xs ys) refl
  ]

  -- Turning round the halves of a list.
  turned :
      (xs ys zs : List Part)
      → Perm (created creates ys) (created creates zs)
      → Perm (created creates (xs ++ ys)) (created creates (zs ++ xs))
  turned xs ys zs p =
      rw (created-append xs ys, created-append zs xs)
        (Perm.trans (Perm.append_left (created creates xs) p)
          (perm_append_comm (created creates xs) (created creates zs)))

  pub orders_turned :
      (matchers risks : ℕ)
      → Perm
          (created creates (start_first matchers ++ start_then risks))
          (created creates (stop_order matchers risks))
  unfolding start_first start_then stop_order
  orders_turned matchers risks =
      let w1 = workers matcher matchers in
      let w2 = workers risk_worker risks in
      let three = oms ∷ order_gate ∷ gateway ∷ [] in
      let up1 = sequencer ∷ (w2 ++ three) in
      let up2 = market_data ∷ (w1 ++ up1) in
      let down1 = (gateway ∷ order_gate ∷ oms ∷ w2) ++ (sequencer ∷ []) in
      let down2 = (down1 ++ w1) ++ (market_data ∷ []) in
      let tail =
        turned (oms ∷ []) (order_gate ∷ gateway ∷ []) (gateway ∷ order_gate ∷ [])
          (turned (order_gate ∷ []) (gateway ∷ []) (gateway ∷ []) (Perm.refl _)) in
      let upper =
        turned (sequencer ∷ []) (w2 ++ three) (gateway ∷ order_gate ∷ oms ∷ w2)
          (turned w2 three (gateway ∷ order_gate ∷ oms ∷ []) tail) in
      let lower = turned w1 up1 down1 upper in
      let last =
        turned (clearing ∷ []) up2 down2
          (turned (market_data ∷ []) (w1 ++ up1) (down1 ++ w1) lower) in
      let order : down2 ++ (clearing ∷ []) ≡ stop_order matchers risks = simp append_assoc in
      subst
        (λ (ps : List Part).
          Perm (created creates (start_first matchers ++ start_then risks)) (created creates ps))
        order last

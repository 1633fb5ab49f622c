-- ===== src/Ring/Template/Retry.antt =====
-- What the loop of MPSCQueue::push comes to, among other producers and among consumers.
use aspira_broker.Prelude.{
  ℕ, zero, suc, ◌≡◌, inl, inr, refl, ap, sym, ◌∙◌, arith, Bool, true, false, not, ◌&&◌, some, List,
  [], ◌∷◌, ◌++◌, append-nil, bit_and, size_add, ◌==◌, eq→==, Bool-cases,
}
use aspira_broker.Ring.{RingQueue, spsc_push}
use aspira_broker.Ring.Fifo.{Op, push, pop, enqueue}
use aspira_broker.Ring.Inv.{IsRing, spsc_push-IsRing}
use aspira_broker.Ring.Refine.{contents, push_refines}
use aspira_broker.Ring.Template.{push_one, pop_one, others, claim, push_among}

module _ {A : Type 0} where
  abbrev pub pushes : List A → List (Op A)
  pushes [] = []
  pushes (x ∷ xs) = push x ∷ pushes xs

  abbrev pub produced : List (List A × Bool) → List (List (Op A) × Bool)
  produced [] = []
  produced ((xs, spurious) ∷ rounds) = (pushes xs, spurious) ∷ produced rounds

  -- What the others push in the first `n` rounds.
  unfoldable pub pushed : ℕ → List (List A × Bool) → List A
  pushed zero rounds = []
  pushed (suc n) [] = []
  pushed (suc n) ((xs, _) ∷ rounds) = xs ++ pushed n rounds

  -- Other producers leave the head and the mask.
  pub others-pushes :
      (xs : List A) (q : RingQueue A)
      → ((others (pushes xs) q).head ≡ q.head) × ((others (pushes xs) q).mask ≡ q.mask)
  unfolding others push_one
  others-pushes [] q = (refl, refl)
  others-pushes (x ∷ xs) q =
      let q' = (push_one q x).1 in
      let same : (q'.head ≡ q.head) × (q'.mask ≡ q.mask) = ground arith in
      let (h, m) = others-pushes xs q' in (h ∙ same.0, m ∙ same.1)

  pub others-append :
      (xs ys : List (Op A)) (q : RingQueue A) → others (xs ++ ys) q ≡ others ys (others xs q)
  unfolding others
  others-append [] ys q = refl
  others-append (push x ∷ xs) ys q = others-append xs ys (push_one q x).1
  others-append (pop ∷ xs) ys q = others-append xs ys (pop_one q).1

  pushes-append : (xs ys : List A) → pushes (xs ++ ys) ≡ pushes xs ++ pushes ys
  pushes-append [] ys = refl
  pushes-append (x ∷ xs) ys = ap (λ zs. push x ∷ zs) (pushes-append xs ys)

  claim_one :
      (p : RingQueue A) (t h : ℕ) (mask : ℕ) (x : A)
      → p.tail ≡ t
      → p.head ≡ h
      → p.mask ≡ mask
      → (bit_and (size_add t 1) mask == h) ≡ false
      → push_one p x ≡ (true, claim p t x)
  unfolding push_one
  claim_one p t h mask x e f g room =
      let room' : (bit_and (size_add p.tail 1) p.mask == p.head) ≡ false =
        ground (arith, room, e, f, g) in
      rw room' (ap (λ k. (true, claim p k x)) e)

  push_among_one :
      (rounds : List (List A × Bool)) (q : RingQueue A) (x : A) {r : Bool × RingQueue A}
      → push_among (produced rounds) q x ≡ some r
      → (n : ℕ) × (r ≡ push_one (others (pushes (pushed n rounds)) q) x)
  unfolding push_among others push_one pushed
  push_among_one [] q x h = cc
  push_among_one ((xs, spurious) ∷ rounds) q x {r} h =
      let n = bit_and (size_add q.tail 1) q.mask in
      let q' = others (pushes xs) q in
      let (head, mask) = others-pushes xs q in
      elim (Bool-cases (n == q.head)) [
        | inl full ↦ (0, ground (arith, (rw full at h)))
        | inr room ↦ elim (Bool-cases (q'.tail == q.tail && not spurious)) [
          | inl mine ↦ (
            1,
            (let taken : (true, claim q' q.tail x) ≡ r = ground (arith, (rw (room, mine) at h)) in
                let tail : q'.tail ≡ q.tail = ground (arith, mine) in
                sym taken
                ∙ sym (claim_one q' q.tail q.head q.mask x tail head mask room)
                ∙ ap (λ ys. push_one (others (pushes ys) q) x) (sym (append-nil xs))),
          )
          | inr missed ↦
              let (m, e) = push_among_one rounds q' x {r = r} (rw (room, missed) at h) in
              let before = pushed m rounds in
              (
                suc m,
                (e
                    ∙ ap (λ p. push_one p x)
                        (sym (
                          ap (λ ops. others ops q) (pushes-append xs before)
                          ∙ others-append (pushes xs) (pushes before) q))),
              )
        ]
      ]

  -- The pushes of other producers, in the abstract queue.
  abbrev pub enqueue_all : ℕ → List A → List A → List A
  enqueue_all limit held [] = held
  enqueue_all limit held (x ∷ xs) = enqueue_all limit (enqueue limit held x).1 xs

  push_one-eq : (q : RingQueue A) (x : A) → push_one q x ≡ spsc_push q x
  unfolding push_one spsc_push
  push_one-eq q x = refl

  pub push_one-contents :
      {q : RingQueue A} (x : A)
      → IsRing q
      → IsRing (push_one q x).1
        × ((push_one q x).1.mask ≡ q.mask)
        × (((push_one q x).0, contents (push_one q x).1) ≡ enqueue q.mask (contents q) x)
  push_one-contents {q} x v =
      let mask : (push_one q x).1.mask ≡ q.mask = unfold push_one in ground arith in
      (rw (push_one-eq q x) (spsc_push-IsRing x v), mask, rw (push_one-eq q x) (push_refines x v))

  pub others-contents :
      (xs : List A) {q : RingQueue A} (limit : ℕ)
      → IsRing q
      → q.mask ≡ limit
      → IsRing (others (pushes xs) q)
        × ((others (pushes xs) q).mask ≡ limit)
        × (contents (others (pushes xs) q) ≡ enqueue_all limit (contents q) xs)
  unfolding others
  others-contents [] limit v e = (v, e, refl)
  others-contents (x ∷ xs) {q} limit v e =
      let (w, mask, step) = push_one-contents x v in
      let (w', mask', rest) = others-contents xs {q = (push_one q x).1} limit w (mask ∙ e) in
      let same : contents (push_one q x).1 ≡ (enqueue limit (contents q) x).1 =
        ap (λ r. r.1) step ∙ ap (λ m. (enqueue m (contents q) x).1) e in
      (w', mask', rest ∙ ap (λ held. enqueue_all limit held xs) same)

  -- A push returns once nobody interferes.
  push_among_ends :
      (rounds : List (List A × Bool)) (q : RingQueue A) (x : A)
      → (r : Bool × RingQueue A) × (push_among (produced (rounds ++ ([], false) ∷ [])) q x ≡ some r)
  unfolding push_among others
  push_among_ends [] q x =
      let n = bit_and (size_add q.tail 1) q.mask in
      elim (Bool-cases (n == q.head)) [
        | inl full ↦ ((false, q), rw full refl)
        | inr room ↦ ((true, claim q q.tail x), rw (room, eq→== q.tail q.tail refl) refl)
      ]
  push_among_ends ((xs, spurious) ∷ rounds) q x =
      let n = bit_and (size_add q.tail 1) q.mask in
      let q' = others (pushes xs) q in
      let (r, e) = push_among_ends rounds q' x in
      elim (Bool-cases (n == q.head)) [
        | inl full ↦ ((false, q), rw full refl)
        | inr room ↦ elim (Bool-cases (q'.tail == q.tail && not spurious)) [
          | inl mine ↦ ((true, claim q' q.tail x), rw (room, mine) refl)
          | inr missed ↦ (r, rw (room, missed) e)
        ]
      ]

  -- Among other producers, whose pushes may come between the loads and the exchange in any round, and
  -- with exchanges that fail for no reason, MPSCQueue::push on a sound ring returns once nobody
  -- interferes. It then has done what an atomic push does after the others' pushes of the first so many
  -- rounds: it was refused and the ring is as they left it, or its element is appended.
  pub push_among_refines :
      (rounds : List (List A × Bool)) {q : RingQueue A} (x : A)
      → IsRing q
      → (s : Bool) × (q' : RingQueue A) × (n : ℕ) × (push_among
            (produced (rounds ++ ([], false) ∷ []))
            q
            x
          ≡ some (s, q'))
        × ((s, contents q')
            ≡ enqueue q.mask
                (enqueue_all q.mask (contents q) (pushed n (rounds ++ ([], false) ∷ [])))
                x)
  push_among_refines rounds {q} x v =
      let ((s, q'), run) = push_among_ends rounds q x in
      let (n, e) = push_among_one (rounds ++ ([], false) ∷ []) q x {r = (s, q')} run in
      let before = pushed n (rounds ++ ([], false) ∷ []) in
      let (w, mask, held) = others-contents before {q = q} q.mask v refl in
      let p = others (pushes before) q in
      let (_, _, step) = push_one-contents {q = p} x w in
      (
        s,
        q',
        n,
        run,
        ap (λ (r : Bool × RingQueue A). (r.0, contents r.1)) e
            ∙ step
            ∙ ap (λ m. enqueue m (contents p) x) mask
            ∙ ap (λ ys. enqueue q.mask ys x) held,
      )

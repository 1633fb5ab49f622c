-- ===== src/Pool/Template/Overlap.antt =====
-- The class template against the pool of C, and what it does to objects that are no nodes.
use mathlib.Core.Path.{fun_ext}
use aspira_broker.Prelude.{
  ℕ, ◌+◌, ◌*◌, ◌/◌, ◌%◌, ◌≤◌, ◌<◌, ◌≡◌, inl, inr, refl, ap, sym, ◌∙◌, arith, true, false, none,
  some, ◌==◌, eq→==, ne→==, ==→eq, if◌then◌else◌, Bool-cases, size_add, write,
}
use aspira_broker.Pool.{Pool, alloc, free}
use aspira_broker.Pool.Template.{LockFreePool, next_of, allocate, release}

-- The pool of C whose node headers hold what stands behind the objects.
abbrev pub as_pool : ℕ → LockFreePool → Pool
as_pool size pool = record {
  head = pool.head;
  alloc_count = pool.alloc_count;
  free_count = pool.free_count;
  next = λ node. pool.words (next_of size node);
}

-- A store behind an object is one into the header of its node.
behind : (size node i : ℕ) → (next_of size i == next_of size node) ≡ (i == node)
behind size node i = elim (Bool-cases (i == node)) [
  | inl e ↦ eq→== (next_of size i) (next_of size node) (ap (next_of size) (==→eq i node e)) ∙ sym e
  | inr e ↦ elim (Bool-cases (next_of size i == next_of size node)) [
    | inl same ↦
        let equal = ==→eq (next_of size i) (next_of size node) same in
        absurd (ground (arith, e, eq→== i node (omega (arith, equal))))
    | inr differ ↦ differ ∙ sym e
  ]
]

pub release-free :
    (size : ℕ) (pool : LockFreePool) (ptr : ℕ)
    → as_pool size (release size pool ptr) ≡ free (as_pool size pool) ptr
unfolding release free
release-free size pool ptr = elim (Bool-cases (ptr == 0)) [
  | inl null ↦ rw null refl
  | inr node ↦
      let same : (i : ℕ)
          → write pool.words (next_of size ptr) pool.head (next_of size i)
            ≡ write (as_pool size pool).next ptr pool.head i =
        λ i. rw (behind size ptr i) refl in
      rw node (
        ap
          (λ next. record {
            head = ptr;
            alloc_count = pool.alloc_count;
            free_count = size_add pool.free_count 1;
            next = next;
          })
          (fun_ext same))
]

pub allocate-alloc :
    (size : ℕ) (pool : LockFreePool)
    → let (node, pool') = allocate size pool in
      (node, as_pool size pool') ≡ alloc (as_pool size pool)
unfolding allocate alloc
allocate-alloc size pool = elim (Bool-cases (pool.head == 0)) [
  | inl empty ↦ rw empty refl
  | inr more ↦ rw more refl
]

-- What the client of an object stores in its first word.
abbrev pub store : LockFreePool → ℕ → ℕ → LockFreePool
store pool ptr v = record pool { words = write pool.words ptr v }

-- What the calls do to the fields, where there is an object.
release-head :
    (size : ℕ) (pool : LockFreePool) (ptr : ℕ)
    → (ptr == 0) ≡ false
    → ((release size pool ptr).head ≡ ptr)
      × ((i : ℕ)
          → (release size pool ptr).words i ≡ write pool.words (next_of size ptr) pool.head i)
unfolding release
release-head size pool ptr node = rw node (refl, λ i. refl)

allocate-head :
    (size : ℕ) (pool : LockFreePool) (ptr : ℕ)
    → pool.head ≡ ptr
    → (ptr == 0) ≡ false
    → ((allocate size pool).0 ≡ some ptr)
      × ((allocate size pool).1.head ≡ pool.words (next_of size ptr))
      × ((i : ℕ) → (allocate size pool).1.words i ≡ pool.words i)
unfolding allocate
allocate-head size pool ptr here node =
    let node' : (pool.head == 0) ≡ false = ap (λ p. p == 0) here ∙ node in
    rw node' (ap some here, ap (λ p. pool.words (next_of size p)) here, λ i. refl)

last-head :
    (size : ℕ) (pool : LockFreePool) (v : ℕ)
    → pool.head ≡ v
    → (allocate size pool).0 ≡ (if v == 0 then none else some v)
unfolding allocate
last-head size pool v here = elim (Bool-cases (v == 0)) [
  | inl null ↦
      let null' : (pool.head == 0) ≡ true = ap (λ p. p == 0) here ∙ null in rw (null, null') refl
  | inr word ↦
      let word' : (pool.head == 0) ≡ false = ap (λ p. p == 0) here ∙ word in
      rw (word, word') (ap some here)
]

-- Of an array of objects of 8 bytes or a greater multiple of 8, where two neighbours are released, the
-- left one first:
-- releasing the left one puts the head into the first word of the right one. The right one is then
-- handed out; once its client has stored a word in it, the left one is handed out, and what comes
-- after it is the client's word, or nothing where the word is 0.
pub allocate-store :
    (size : ℕ) (pool : LockFreePool) (left v : ℕ)
    → 8 ≤ size
    → size % 8 ≡ 0
    → 0 < left
    → let right = left + size in
      let one = release size pool left in
      let (first, taken) = allocate size (release size one right) in
      let (second, rest) = allocate size (store taken right v) in
      (one.words right ≡ pool.head)
      × (first ≡ some right)
      × (second ≡ some left)
      × ((allocate size rest).0 ≡ (if v == 0 then none else some v))
allocate-store size pool left v enough whole some_left =
    let right = left + size in
    let padded : (size + 7) / 8 * 8 ≡ size = omega arith in
    let next_left : next_of size left ≡ right = ap (λ n. left + n) padded in
    let next_right = next_of size right in
    let left' : (left == 0) ≡ false = ne→== left 0 (λ e. absurd (omega (arith, e))) in
    let right' : (right == 0) ≡ false = ne→== right 0 (λ e. absurd (omega (arith, e))) in
    let one = release size pool left in
    let two = release size one right in
    let (one_head, one_words) = release-head size pool left left' in
    let (two_head, two_words) = release-head size one right right' in
    let (first, taken_head, taken_words) = allocate-head size two right two_head right' in
    let taken = (allocate size two).1 in
    let stored = store taken right v in
    let on_left : stored.head ≡ left =
      taken_head ∙ two_words next_right ∙ rw (eq→== next_right next_right refl) one_head in
    let (second, rest_head, _) = allocate-head size stored left on_left left' in
    let rest = (allocate size stored).1 in
    let word : rest.head ≡ v =
      rest_head ∙ ap stored.words next_left ∙ rw (eq→== right right refl) refl in
    (
      one_words right ∙ rw (eq→== right (next_of size left) (sym next_left)) refl,
      first,
      second,
      last-head size rest v word,
    )

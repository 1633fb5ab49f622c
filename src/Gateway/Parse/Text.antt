-- ===== src/Gateway/Parse/Text.antt =====
-- The text parser ends, and the key check compares whole keys.
use mathlib.Core.Path.{ap₂}
use aspira_broker.Prelude.{
  ℕ, zero, suc, ◌+◌, ◌≤◌, ◌<◌, ◌≡◌, ◌≢◌, ◌↔◌, ◌⊎◌, inl, inr, refl, ap, arith, Bool, true, false,
  not, ◌&&◌, ◌||◌, none, some, List, [], ◌∷◌, length, get_or, Buffer, ◌==◌, if◌then◌else◌,
  Bool-cases, Option-cases,
}
use aspira_broker.Messages.{OrderRequest}
use aspira_broker.Gateway.Bytes.{bytes}
use aspira_broker.Gateway.Parse.{
  Libc, codes, strncmp_eq, validate_api_key, split_at, until_pipe, skip_separators, set_field,
  parse_fields, parse_order_text, blank_request,
}

List-cases : (p : List ℕ) → (p ≡ []) ⊎ ((x : ℕ) × (xs : List ℕ) × (p ≡ x ∷ xs))
List-cases [] = inl refl
List-cases (x ∷ xs) = inr (x, xs, refl)

skip-le : (p : List ℕ) → length (skip_separators p) ≤ length p
unfolding skip_separators
skip-le [] = omega arith
skip-le (x ∷ xs) = ground (arith, skip-le xs)

until-le : (p : List ℕ) → length (until_pipe p).1 ≤ length p
unfolding until_pipe
until-le [] = omega arith
until-le (x ∷ xs) = ground (arith, until-le xs)

split-lt : (c : ℕ) (p : List ℕ) {a b : List ℕ} → split_at c p ≡ some (a, b) → length b < length p
unfolding split_at
split-lt c [] h = cc
split-lt c (x ∷ xs) {a} {b} h = elim (Bool-cases (x == c)) [
  | inl here ↦ ground arith
  | inr there ↦ elim (Option-cases (split_at c xs)) [
    | inl e ↦ ground arith
    | inr ((u, v), e) ↦ ground (arith, split-lt c xs e)
  ]
]

-- One round for each byte of what is left, and one more, is enough fuel.
pub parse_fields_total :
    (libc : Libc) (f : ℕ) (p : List ℕ) (req : OrderRequest)
    → length p < f
    → parse_fields libc f p req ≢ none
unfolding parse_fields
parse_fields_total libc zero p req h = absurd (omega arith)
parse_fields_total libc (suc f) p req h = elim (List-cases (skip_separators p)) [
  | inl e ↦ rw (e, parse_fields) (λ q. cc)
  | inr (x, xs, e) ↦ elim (Option-cases (split_at b'=' (x ∷ xs))) [
    | inl miss ↦ rw (e, parse_fields, miss) (λ q. cc)
    | inr ((key, vs), hit) ↦
        rw (e, parse_fields, hit)
          (parse_fields_total libc f (until_pipe vs).1 (set_field libc req key (until_pipe vs).0)
            (omega (arith, skip-le p, ap length e, split-lt b'=' (x ∷ xs) hit, until-le vs)))
  ]
]

-- The text parser always ends: it rejects a payload exactly when the fields leave the symbol empty.
pub parse_order_text_total :
    (libc : Libc) (now : ℕ) (payload : List ℕ)
    → (req : OrderRequest) × (parse_fields libc (length payload + 1) payload (blank_request now)
        ≡ some req)
      × (parse_order_text libc now payload
          ≡ (if get_or req.symbol 0 0 == 0 then none else some req))
unfolding parse_order_text
parse_order_text_total libc now payload =
    elim (Option-cases (parse_fields libc (length payload + 1) payload (blank_request now))) [
      | inl e ↦
          absurd (
            parse_fields_total libc (length payload + 1) payload (blank_request now) (omega arith)
              e)
      | inr (req, e) ↦ (req, e, rw (e, parse_order_text) refl)
    ]

strncmp_iff :
    (mem : Buffer ℕ) (text : List ℕ) (i n : ℕ)
    → length text ≡ n
    → (strncmp_eq mem text i n ≡ true) ↔ (bytes mem i n ≡ text)
unfolding strncmp_eq bytes
strncmp_iff mem [] i zero e = (λ _. refl, λ _. refl)
strncmp_iff mem [] i (suc n) e = absurd (omega arith)
strncmp_iff mem (c ∷ text) i zero e = absurd (omega arith)
strncmp_iff mem (c ∷ text) i (suc n) e =
    let ih = strncmp_iff mem text (i + 1) n (omega arith) in
    (λ h. ap₂ ◌∷◌ (ground arith) (ih.0 (ground arith)), λ h. ground (arith, ih))

either :
    {P Q : Type 0} (empty a b : Bool)
    → (a ≡ true) ↔ P
    → (b ≡ true) ↔ Q
    → (P → empty ≡ false)
    → (Q → empty ≡ false)
    → ((not empty && (a || (b || false))) ≡ true) ↔ P ⊎ Q
either true a b p q np nq = (λ h. cc, elim [ inl x ↦ cc (np x) | inr y ↦ cc (nq y) ])
either false true b p q np nq = (λ h. inl (p.0 refl), λ h. refl)
either false false true p q np nq = (λ h. inr (q.0 refl), λ h. refl)
either false false false p q np nq = (λ h. cc, elim [ inl x ↦ p.1 x | inr y ↦ q.1 y ])

head_ne :
    (mem : Buffer ℕ) (n c : ℕ) (text : List ℕ)
    → bytes mem 0 32 ≡ c ∷ text
    → c ≡ n + 1
    → (mem 0 == 0) ≡ false
unfolding bytes
head_ne mem n c text h e = ground (arith, ap (λ l. get_or l 0 0) h)

-- A key is accepted exactly when the 32 bytes at its pointer are one of the two listed keys.
pub validate_api_key_iff :
    (mem : Buffer ℕ)
    → (validate_api_key mem ≡ true)
      ↔ (bytes mem 0 32 ≡ codes "test-key-00000000000000000000000")
        ⊎ (bytes mem 0 32 ≡ codes "benchmark-key-000000000000000000")
unfolding validate_api_key
validate_api_key_iff mem =
    either (mem 0 == 0) _ _ (strncmp_iff mem (codes "test-key-00000000000000000000000") 0 32 refl)
      (strncmp_iff mem (codes "benchmark-key-000000000000000000") 0 32 refl)
      (λ h. head_ne mem 115 116 _ h refl) (λ h. head_ne mem 97 98 _ h refl)

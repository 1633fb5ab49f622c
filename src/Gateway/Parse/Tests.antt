-- ===== src/Gateway/Parse/Tests.antt =====
-- Runs of the parsers and the key check, and their theorems at concrete inputs.
use aspira_broker.Prelude.{
  ℕ, suc, ◌+◌, ◌*◌, ◌-◌, ◌≡◌, refl, ap, ◌∙◌, arith, true, none, some, List, [], ◌∷◌, ◌++◌, length,
  get_or, Buffer, if◌then◌else◌, ◌==◌,
}
use aspira_broker.Messages.{OrderRequest}
use aspira_broker.Gateway.Bytes.{bytes}
use aspira_broker.Gateway.Parse.{
  Libc, codes, validate_api_key, strncmp_eq, matches_key, split_at, until_pipe, skip_separators,
  set_field, parse_fields, parse_order_text, decode_request, le_bytes, parse_order_binary,
  blank_request,
}
use aspira_broker.Gateway.Parse.Text.{parse_order_text_total}
use aspira_broker.Gateway.Parse.Binary.{
  layout, InRange, At, IsAcceptable, parse_order_binary-layout,
}

program : Unit {0}
unfolding bytes strncmp_eq matches_key validate_api_key split_at until_pipe skip_separators
    set_field parse_fields parse_order_text le_bytes decode_request parse_order_binary
program = tt

abbrev stream : List ℕ → Buffer ℕ
stream xs i = get_or xs i 0

-- Decimal digits, which is what the conversions read in the runs below.
abbrev digits : List ℕ → ℕ → ℕ
digits [] n = n
digits (c ∷ cs) n = digits cs (n * 10 + (c - b'0'))

abbrev libc : Libc
libc = record {
  strtoull = λ s. digits s 0;
  strtoul = λ s. digits s 0;
  strtod_int = λ s. digits s 0;
}

abbrev text_order : List ℕ
text_order = codes "u=7|s=AAPL|p=150|q=100|d=S|t=M"

parse_text :
    parse_order_text libc 70 text_order
    ≡ some (record {
      request_id = 0;
      user_id = 7;
      symbol = codes "AAPL" ++ 0 ∷ 0 ∷ 0 ∷ 0 ∷ 0 ∷ 0 ∷ 0 ∷ 0 ∷ 0 ∷ 0 ∷ 0 ∷ 0 ∷ [];
      price = 150;
      quantity = 100;
      side = 1;
      order_type = 1;
      timestamp = 70;
    })
unfolding program
parse_text = refl

key_accepted : validate_api_key (stream (codes "test-key-00000000000000000000000")) ≡ true
unfolding program
key_accepted = refl

parse_order_text_total_example :
    (req : OrderRequest) × (parse_fields libc (length text_order + 1) text_order (blank_request 70)
      ≡ some req)
    × (parse_order_text libc 70 text_order
        ≡ (if get_or req.symbol 0 0 == 0 then none else some req))
parse_order_text_total_example = parse_order_text_total libc 70 text_order

-- A binary order: id 3, user 7, symbol "AB", price 5, quantity 9, side and type as given.
abbrev binary_order : ℕ → List ℕ
binary_order t =
    3 ∷ 0 ∷ 0 ∷ 0 ∷ 0 ∷ 0 ∷ 0 ∷ 0 ∷ 7 ∷ 0 ∷ 0 ∷ 0 ∷ 0 ∷ 0 ∷ 0 ∷ 0 ∷ 65 ∷ 66 ∷ 0 ∷ 0 ∷ 0 ∷ 0 ∷ 0 ∷ 0
    ∷ 0 ∷ 0 ∷ 0 ∷ 0 ∷ 0 ∷ 0 ∷ 0 ∷ 0 ∷ 5 ∷ 0 ∷ 0 ∷ 0 ∷ 0 ∷ 0 ∷ 0 ∷ 0 ∷ 9 ∷ 0 ∷ 0 ∷ 0 ∷ 1 ∷ 0 ∷ 0 ∷ 0
    ∷ t ∷ []

abbrev binary : OrderRequest
binary = record {
  request_id = 3;
  user_id = 7;
  symbol = 65 ∷ 66 ∷ 0 ∷ 0 ∷ 0 ∷ 0 ∷ 0 ∷ 0 ∷ 0 ∷ 0 ∷ 0 ∷ 0 ∷ 0 ∷ 0 ∷ 0 ∷ 0 ∷ [];
  price = 5;
  quantity = 9;
  side = 1;
  order_type = 0;
  timestamp = 70;
}

parse_binary : parse_order_binary 70 (stream (binary_order 0)) 48 ≡ some binary
unfolding program
parse_binary = refl

At-each :
    (mem : Buffer ℕ) (i : ℕ) (xs : List ℕ) → ((k : ℕ) → mem (i + k) ≡ get_or xs k 0) → At mem i xs
At-each mem i [] h = tt
At-each mem i (x ∷ xs) h =
    let here : i ≡ i + 0 = omega arith in
    let behind : (k : ℕ) → i + 1 + k ≡ i + suc k = λ k. omega arith in
    (ap mem here ∙ h 0, At-each mem (i + 1) xs (λ k. ap mem (behind k) ∙ h (suc k)))

-- The bytes of the order, with some padding.
abbrev message : List ℕ
message = layout binary (1 ∷ 2 ∷ 3 ∷ 4 ∷ [])

binary-InRange : InRange binary
binary-InRange = record {
  request_id = omega arith;
  user_id = omega arith;
  symbol = refl;
  price = omega arith;
  quantity = omega arith;
  side = omega arith;
  order_type = omega arith;
}

parse_order_binary-layout_example :
    (IsAcceptable 56 binary
      → parse_order_binary 90 (stream message) 56 ≡ some (record binary { timestamp = 90 }))
    × (¬ IsAcceptable 56 binary → parse_order_binary 90 (stream message) 56 ≡ none)
parse_order_binary-layout_example =
    parse_order_binary-layout 90 (stream message) 56 binary (1 ∷ 2 ∷ 3 ∷ 4 ∷ []) binary-InRange (
      At-each (stream message) 0 message
        (λ k. let same : 0 + k ≡ k = omega arith in ap (stream message) same))

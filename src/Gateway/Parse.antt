-- ===== src/Gateway/Parse.antt =====
-- src/net/gateway.c: the parsers of order messages and the key check. A text is its list of bytes.
pub mod Text
pub mod Binary
mod Tests
use Prim.Native.String.{String}
use Prim.Native.Char.{code}
use aspira_broker.Prelude.{
  ℕ, zero, suc, ◌+◌, ◌-◌, ◌*◌, ◌%◌, ◌^◌, Bool, true, false, not, ◌&&◌, ◌||◌, Option, none, some,
  List, [], ◌∷◌, ◌++◌, length, take, drop, get_or, ltb, leb, ◌==◌, if◌then◌else◌, Buffer,
}
use aspira_broker.Messages.{
  OrderRequest, side_buy, side_sell, type_limit, type_market, type_ioc, type_fok,
}
use aspira_broker.Gateway.Bytes.{bytes}

-- The conversions of the C library on the text of a field: strtoull and strtoul in base 10, and
-- strtod with the conversion of its result to a 64-bit integer.
pub record Libc : Type 0 where
  pub strtoull : List ℕ → ℕ
  pub strtoul : List ℕ → ℕ
  pub strtod_int : List ℕ → ℕ

abbrev pub codes : String → List ℕ
codes String.[] = []
codes (String.◌∷◌ c s) = code c ∷ codes s

-- g_api_keys.
abbrev pub api_keys : List (List ℕ)
api_keys = codes "test-key-00000000000000000000000" ∷ codes "benchmark-key-000000000000000000" ∷ []

-- Whether strncmp finds the memory at a pointer, from index `i` on, equal to a text that ends in
-- NUL, over at most `n` bytes.
unfoldable pub strncmp_eq : Buffer ℕ → List ℕ → ℕ → ℕ → Bool
strncmp_eq mem text i zero = true
strncmp_eq mem [] i (suc n) = mem i == 0
strncmp_eq mem (c ∷ text) i (suc n) = mem i == c && strncmp_eq mem text (i + 1) n

-- The loop of gw_validate_api_key.
unfoldable pub matches_key : Buffer ℕ → List (List ℕ) → Bool
unfolding strncmp_eq
matches_key mem [] = false
matches_key mem (key ∷ keys) = strncmp_eq mem key 0 32 || matches_key mem keys

-- gw_validate_api_key on the memory at `key`.
unfoldable pub validate_api_key : Buffer ℕ → Bool
unfolding matches_key
validate_api_key mem = not (mem 0 == 0) && matches_key mem api_keys

-- `memchr`: the bytes before the first `c`, and those after it.
unfoldable pub split_at : ℕ → List ℕ → Option (List ℕ × List ℕ)
split_at c [] = none
split_at c (x ∷ xs) =
    if x == c
    then some ([], xs)
    else (elim (split_at c xs) [ none ↦ none | some (before, after) ↦ some (x ∷ before, after) ])

-- The bytes before the first '|' of a value, or all, and the rest from the '|' on.
unfoldable pub until_pipe : List ℕ → List ℕ × List ℕ
until_pipe [] = ([], [])
until_pipe (x ∷ xs) =
    if x == b'|' then ([], x ∷ xs) else (let (v, rest) = until_pipe xs in (x ∷ v, rest))

unfoldable pub skip_separators : List ℕ → List ℕ
skip_separators [] = []
skip_separators (x ∷ xs) = if x == b'|' || x == b' ' then skip_separators xs else x ∷ xs

-- memset(req, 0), with the timestamp.
abbrev pub blank_request : ℕ → OrderRequest
blank_request now = record {
  request_id = 0;
  user_id = 0;
  symbol = 0 ∷ 0 ∷ 0 ∷ 0 ∷ 0 ∷ 0 ∷ 0 ∷ 0 ∷ 0 ∷ 0 ∷ 0 ∷ 0 ∷ 0 ∷ 0 ∷ 0 ∷ 0 ∷ [];
  price = 0;
  quantity = 0;
  side = 0;
  order_type = 0;
  timestamp = now;
}

-- The field `t`.
abbrev pub parse_type : ℕ → ℕ
parse_type c =
    if c == b'L'
    then type_limit
    else if c == b'M'
    then type_market
    else if c == b'I'
    then type_ioc
    else if c == b'F'
    then type_fok
    else type_limit

-- What one `key=value` does to the request; `vb` holds at most 31 bytes of the value.
unfoldable pub set_field : Libc → OrderRequest → List ℕ → List ℕ → OrderRequest
set_field libc req key value =
    let vb = take 31 value in
    let c = get_or vb 0 0 in
    let is_key = λ (k : ℕ). length key == 1 && get_or key 0 0 == k in
    let symbol = take 15 value in
    if is_key b'u'
    then record req { user_id = libc.strtoull vb }
    else if is_key b's'
    then record req { symbol = symbol ++ 0 ∷ drop (length symbol + 1) req.symbol }
    else if is_key b'p'
    then record req { price = libc.strtod_int vb }
    else if is_key b'q'
    then record req { quantity = libc.strtoul vb % 2 ^ 32 }
    else if is_key b'd'
    then record req { side = if c == b'S' || c == b's' then side_sell else side_buy }
    else if is_key b't'
    then record req { order_type = parse_type c }
    else req

-- The loop of gw_parse_order_text, on fuel.
unfoldable pub parse_fields : Libc → ℕ → List ℕ → OrderRequest → Option OrderRequest
unfolding split_at until_pipe skip_separators set_field
parse_fields libc zero p req = none
parse_fields libc (suc f) p req = elim (skip_separators p) [
  | [] ↦ some req
  | x ∷ xs ↦ elim (split_at b'=' (x ∷ xs)) [
    | none ↦ some req
    | some (key, vs) ↦
        parse_fields libc f (until_pipe vs).1 (set_field libc req key (until_pipe vs).0)
  ]
]

-- gw_parse_order_text: the request, if it has a symbol. One round more than the payload has bytes
-- is enough fuel.
unfoldable pub parse_order_text : Libc → ℕ → List ℕ → Option OrderRequest
unfolding parse_fields
parse_order_text libc now payload =
    elim (parse_fields libc (length payload + 1) payload (blank_request now)) [
      | none ↦ none
      | some req ↦ if get_or req.symbol 0 0 == 0 then none else some req
    ]

-- An unsigned little-endian integer of `n` bytes at index `i`.
unfoldable pub le_bytes : Buffer ℕ → ℕ → ℕ → ℕ
le_bytes mem i zero = 0
le_bytes mem i (suc n) = mem i + 256 * le_bytes mem (i + 1) n

-- The members of bt_order_request_t at their offsets; its size is 64.
unfoldable pub decode_request : Buffer ℕ → OrderRequest
unfolding le_bytes bytes
decode_request mem = record {
  request_id = le_bytes mem 0 8;
  user_id = le_bytes mem 8 8;
  symbol = bytes mem 16 16;
  price = le_bytes mem 32 8;
  quantity = le_bytes mem 40 4;
  side = le_bytes mem 44 4;
  order_type = le_bytes mem 48 4;
  timestamp = le_bytes mem 56 8;
}

-- gw_parse_order_binary on the memory at `payload`. The copy takes 64 bytes whatever `len` is.
unfoldable pub parse_order_binary : ℕ → Buffer ℕ → ℕ → Option OrderRequest
unfolding decode_request
parse_order_binary now mem len =
    let req = record (decode_request mem) { timestamp = now } in
    if ltb len 48 || ltb 64 len
    then none
    else if get_or req.symbol 0 0 == 0 || req.quantity == 0
    then none
    else if not (req.side == side_buy) && not (req.side == side_sell)
    then none
    else if ltb type_fok req.order_type
    then none
    else some req

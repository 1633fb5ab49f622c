-- ===== src/Gateway/Parse/Binary.antt =====
-- gw_parse_order_binary against the layout of bt_order_request_t, and what it reads past its message.
use mathlib.Core.Path.{subst}
use aspira_broker.Prelude.{
  ℕ, zero, suc, ◌+◌, ◌/◌, ◌%◌, ◌^◌, ◌≤◌, ◌<◌, ◌≡◌, ◌≢◌, refl, inl, inr, Option-cases, ap, sym, ◌∙◌,
  arith, none, some, List, [], ◌∷◌, ◌++◌, length, get_or, Buffer, write,
}
use aspira_broker.Messages.{OrderRequest}
use aspira_broker.Gateway.Bytes.{bytes}
use aspira_broker.Gateway.Parse.{decode_request, le_bytes, parse_order_binary}

-- The bytes of an unsigned integer, the least significant one first.
abbrev pub word : ℕ → ℕ → List ℕ
word zero v = []
word (suc n) v = v % 256 ∷ word n (v / 256)

-- The bytes of a bt_order_request_t, its members in order, where `pad` stands between the type and the
-- timestamp.
abbrev pub layout : OrderRequest → List ℕ → List ℕ
layout req pad =
    word 8 req.request_id
    ++ (word 8 req.user_id
        ++ (req.symbol
            ++ (word 8 req.price
                ++ (word 4 req.quantity
                    ++ (word 4 req.side
                        ++ (word 4 req.order_type ++ (pad ++ word 8 req.timestamp)))))))

-- The members have values of their types.
pub record InRange (req : OrderRequest) : Type 0 where
  pub request_id : req.request_id < 2 ^ 64
  pub user_id : req.user_id < 2 ^ 64
  pub symbol : length req.symbol ≡ 16
  pub price : req.price < 2 ^ 64
  pub quantity : req.quantity < 2 ^ 32
  pub side : req.side < 2 ^ 32
  pub order_type : req.order_type < 2 ^ 32

-- The memory holds some bytes from an index on.
abbrev pub At : Buffer ℕ → ℕ → List ℕ → Type 0
At mem i [] = Unit
At mem i (x ∷ xs) = (mem i ≡ x) × At mem (i + 1) xs

-- `n` bytes are enough for the number.
abbrev pub Fits : ℕ → ℕ → Type 0
Fits zero v = v ≡ 0
Fits (suc n) v = Fits n (v / 256)

module _ (mem : Buffer ℕ) where
  le_bytes-word :
      (n v i : ℕ) (rest : List ℕ)
      → Fits n v
      → At mem i (word n v ++ rest)
      → (le_bytes mem i n ≡ v) × At mem (i + n) rest
  unfolding le_bytes
  le_bytes-word zero v i rest f h = (sym f, subst (λ (k : ℕ). At mem k rest) (omega arith) h)
  le_bytes-word (suc n) v i rest f h =
      let (e, later) = le_bytes-word n (v / 256) (i + 1) rest f h.1 in
      (omega (arith, h.0, e), subst (λ (k : ℕ). At mem k rest) (omega arith) later)

  bytes-text :
      (xs : List ℕ) (i : ℕ) (rest : List ℕ)
      → At mem i (xs ++ rest)
      → (bytes mem i (length xs) ≡ xs) × At mem (i + length xs) rest
  unfolding bytes
  bytes-text [] i rest h = (refl, subst (λ (k : ℕ). At mem k rest) (omega arith) h)
  bytes-text (x ∷ xs) i rest h =
      let (e, later) = bytes-text xs (i + 1) rest h.1 in
      (rw (h.0, e) refl, subst (λ (k : ℕ). At mem k rest) (omega arith) later)

  -- Reading the structure from its bytes.
  decode_request-layout :
      (req : OrderRequest) (pad : List ℕ)
      → InRange req
      → At mem 0 (layout req pad)
      → (now : ℕ) → record (decode_request mem) { timestamp = now } ≡ record req { timestamp = now }
  unfolding decode_request
  decode_request-layout req pad v h now =
      let after_type = pad ++ word 8 req.timestamp in
      let after_side = word 4 req.order_type ++ after_type in
      let after_quantity = word 4 req.side ++ after_side in
      let after_price = word 4 req.quantity ++ after_quantity in
      let after_symbol = word 8 req.price ++ after_price in
      let after_user = req.symbol ++ after_symbol in
      let (id, h1) =
        le_bytes-word 8 req.request_id 0 (word 8 req.user_id ++ after_user)
          (omega (arith, v.request_id)) h in
      let (user, h2) = le_bytes-word 8 req.user_id 8 after_user (omega (arith, v.user_id)) h1 in
      let (text, h3) = bytes-text req.symbol 16 after_symbol h2 in
      let text' : bytes mem 16 16 ≡ req.symbol = ap (bytes mem 16) (sym v.symbol) ∙ text in
      let h3' = subst (λ (n : ℕ). At mem (16 + n) after_symbol) v.symbol h3 in
      let (price, h4) = le_bytes-word 8 req.price 32 after_price (omega (arith, v.price)) h3' in
      let (quantity, h5) =
        le_bytes-word 4 req.quantity 40 after_quantity (omega (arith, v.quantity)) h4 in
      let (side, h6) = le_bytes-word 4 req.side 44 after_side (omega (arith, v.side)) h5 in
      let (kind, _) =
        le_bytes-word 4 req.order_type 48 after_type (omega (arith, v.order_type)) h6 in
      rw (id, user, text', price, quantity, side, kind) refl

-- What the parser asks of a message.
pub record IsAcceptable (len : ℕ) (req : OrderRequest) : Type 0 where
  pub long : 48 ≤ len
  pub short : len ≤ 64
  pub symbol : get_or req.symbol 0 0 ≢ 0
  pub quantity : req.quantity ≢ 0
  pub side : req.side ≤ 1
  pub order_type : req.order_type ≤ 3

parse_order_binary-accepts :
    (now : ℕ) (mem : Buffer ℕ) (len : ℕ)
    → let req = record (decode_request mem) { timestamp = now } in
      IsAcceptable len req → parse_order_binary now mem len ≡ some req
unfolding parse_order_binary
parse_order_binary-accepts now mem len a =
    ground (arith, a.long, a.short, a.symbol, a.quantity, a.side, a.order_type)

parse_order_binary-refuses :
    (now : ℕ) (mem : Buffer ℕ) (len : ℕ) (r : OrderRequest)
    → parse_order_binary now mem len ≡ some r
    → IsAcceptable len (record (decode_request mem) { timestamp = now })
unfolding parse_order_binary
parse_order_binary-refuses now mem len r h = record {
  long = ground arith;
  short = ground arith;
  symbol = ground arith;
  quantity = ground arith;
  side = ground arith;
  order_type = ground arith;
}

-- Where the memory at the payload has the bytes of a bt_order_request_t, with members in the range of
-- their types: a message of 48 to 64 bytes with a symbol that is not empty, a quantity other than 0
-- and a side and a type of the enumerations is read back with every member as it was but the
-- timestamp, which is the time of arrival; and any other message is refused.
pub parse_order_binary-layout :
    (now : ℕ) (mem : Buffer ℕ) (len : ℕ) (req : OrderRequest) (pad : List ℕ)
    → InRange req
    → At mem 0 (layout req pad)
    → (IsAcceptable len req
        → parse_order_binary now mem len ≡ some (record req { timestamp = now }))
      × (¬ IsAcceptable len req → parse_order_binary now mem len ≡ none)
parse_order_binary-layout now mem len req pad v h =
    let same = decode_request-layout mem req pad v h now in
    (
      λ a.
          parse_order_binary-accepts now mem len (
            subst (IsAcceptable len) (sym same) (record {
              long = a.long;
              short = a.short;
              symbol = a.symbol;
              quantity = a.quantity;
              side = a.side;
              order_type = a.order_type;
            }))
          ∙ ap some same,
      λ n. elim (Option-cases (parse_order_binary now mem len)) [
        | inl e ↦ e
        | inr (r, e) ↦
            let a = subst (IsAcceptable len) same (parse_order_binary-refuses now mem len r e) in
            absurd (
              n (record {
                long = a.long;
                short = a.short;
                symbol = a.symbol;
                quantity = a.quantity;
                side = a.side;
                order_type = a.order_type;
              }))
      ],
    )

-- The type of a 48-byte order is read from bytes behind the message: whatever byte `t` of at most
-- 3 stands there makes the parser accept the same message as an order of type `t`.
pub parse_order_binary_overread :
    (now : ℕ) (mem : Buffer ℕ) (t : ℕ) {req : OrderRequest}
    → t ≤ 3
    → parse_order_binary now mem 48 ≡ some req
    → parse_order_binary now (write mem 48 t) 48 ≡ some (record req { order_type = t })
unfolding parse_order_binary
parse_order_binary_overread now mem t small h = ground arith

-- ===== src/Order/Btcc.antt =====
-- bundle/internal/order/delegator/btcc: orders placed and cancelled over HTTP. The JSON encoder, the
-- HTTP client and MD5 are the fields of `Services`; `now` is the clock in seconds. The two methods end in
-- the same lines, which are `exchange`; response.go has fields that nothing reads.
pub mod Answers
pub mod Sorted
use go_hft.Prelude.{
  ℕ, zero, suc, ◌+◌, ◌*◌, ◌-◌, ◌^◌, Bool, true, false, Option, none, some, List, [], ◌∷◌, ◌++◌,
  ◌==◌, if◌then◌else◌, ◌&&◌, ◌||◌, not, leb, ltb, Bytes, codes,
}
use go_hft.Prelude.Int.{ℤ, pos, negsuc}
use go_hft.Adapter.Common.{append_int}
use go_hft.Adapter.Common as Common
use go_hft.Adapter.Enum.{
  platform_btcc, action_place_order, action_cancel_order, side_sell, type_limit, type_market,
  tif_ioc, tif_fok,
}
use go_hft.Adapter.Symbol as Symbol
use go_hft.Adapter.Str64.{new_str64, copy_into}
use go_hft.Adapter.Str64 as Str64
use go_hft.Adapter.Order.{
  OrderIntent, OrderRequest, OrderResponse, is_zero, set_internal_error, set_error,
}

-- A value of the body, which is a map[string]any.
pub data Value : Type 0 where
  text : Bytes → Value
  number : ℤ → Value

abbrev pub Body : Type 0
Body = List (Bytes × Value)

pub record HttpRequest : Type 0 where
  pub url : Bytes
  pub payload : Bytes
  pub authorization : Bytes

pub record ResponseError : Type 0 where
  pub code : ℤ
  pub message : Bytes

-- Of `Data` only the identifier is read.
pub record Response : Type 0 where
  pub error : ResponseError
  pub id : ℤ

pub data DecodeError : Type 0 where
  eof malformed : DecodeError

pub record Services : Type 0 where
  pub marshal : Body → Option Bytes
  pub is_url : Bytes → Bool
  pub answer : HttpRequest → Option Bytes
  pub decode_body : Bytes → Response × Option DecodeError
  pub digest : Bytes → Bytes

pub data SendError : Type 0 where
  mismatch_platform unsupported_type unsupported_action no_id : SendError
  not_marshalled not_created not_answered not_decoded empty_order_id : SendError

-- What a call returns, and the request that it handed to the HTTP client.
pub record Sending : Type 0 where
  pub response : OrderResponse
  pub failure : Option SendError
  pub posted : Option HttpRequest

abbrev pub base_url : Bool → Bytes
base_url is_testnet =
    if is_testnet
    then codes "https://spot.cryptouat.com:9910"
    else codes "https://spotapi2.btcccdn.com"

unfoldable pub btcc_side : ℕ → ℤ
btcc_side side = if side == side_sell then pos 2 else pos 1

unfoldable pub btcc_time_in_force : ℕ → ℤ
btcc_time_in_force tif = if tif == tif_ioc then pos 8 else if tif == tif_fok then pos 16 else pos 0

-- `fmt.Sprintf("%s=%v", k, v)`
unfoldable pub pair : Bytes × Value → Bytes
pair (k, text t) = k ++ b'=' ∷ t
pair (k, number n) = k ++ b'=' ∷ append_int n

-- The order of Go's strings: that of their bytes.
unfoldable pub not_after : Bytes → Bytes → Bool
not_after [] t = true
not_after (a ∷ s) [] = false
not_after (a ∷ s) (b ∷ t) = if a == b then not_after s t else ltb a b

unfoldable pub insert_string : Bytes → List Bytes → List Bytes
insert_string s [] = s ∷ []
insert_string s (t ∷ ts) = if not_after s t then s ∷ t ∷ ts else t ∷ insert_string s ts

-- `sort.Strings`
unfoldable pub sort_strings : List Bytes → List Bytes
unfolding insert_string
sort_strings [] = []
sort_strings (s ∷ ss) = insert_string s (sort_strings ss)

-- `strings.Join(pairs, "&")`
unfoldable pub join : List Bytes → Bytes
join [] = []
join (s ∷ []) = s
join (s ∷ t ∷ ts) = s ++ b'&' ∷ join (t ∷ ts)

unfoldable pub pairs : Body → List Bytes
unfolding pair
pairs [] = []
pairs (entry ∷ body) = pair entry ∷ pairs body

-- What is hashed: the pairs with the secret, sorted.
unfoldable pub signed_text : Bytes → Body → Bytes
unfolding pairs sort_strings join
signed_text secret body =
    join (sort_strings (pairs body ++ (codes "secret_key=" ++ Str64.append_bytes secret) ∷ []))

-- `adapter.OrderResponse{Request: req}`
unfoldable pub new_response : OrderRequest → OrderResponse
new_response req = record {
  request = req;
  order_id = new_str64 [];
  sent = false;
  code = pos 0;
  msg = new_str64 [];
}

-- The end of both methods: what the decoded answer makes of a response.
unfoldable pub by_data : OrderResponse → Response → OrderResponse × Option SendError
unfolding set_error set_internal_error
by_data resp data' =
    if not (is_zero data'.error.code)
    then (set_error data'.error.code data'.error.message resp, none)
    else if is_zero data'.id
    then (set_internal_error (codes "order: empty response order id") resp, some empty_order_id)
    else (record resp { order_id = new_str64 (append_int data'.id) }, none)

unfoldable pub decoded :
    OrderResponse → Response × Option DecodeError → OrderResponse × Option SendError
unfolding by_data set_internal_error
decoded resp (data', none) = by_data resp data'
decoded resp (data', some eof) = by_data resp data'
decoded resp (data', some malformed) =
    (set_internal_error (codes "order: decode response body") resp, some not_decoded)

-- `d.client.Do(r)` and what follows.
unfoldable pub answered : Services → OrderResponse → HttpRequest → Option Bytes → Sending
unfolding decoded
answered services resp r none = record {
  response = resp;
  failure = some not_answered;
  posted = some r;
}
answered services resp r (some body) =
    let result = decoded (record resp { sent = true }) (services.decode_body body) in
    record { response = result.0; failure = result.1; posted = some r }

-- A call that ends before a request is handed over.
abbrev pub refused : OrderResponse → SendError → Sending
refused resp e = record { response = resp; failure = some e; posted = none }

unfoldable pub posted_to : Services → Bytes → Bytes → Body → OrderResponse → Option Bytes → Sending
unfolding answered signed_text
posted_to services url secret body resp none = refused resp not_marshalled
posted_to services url secret body resp (some payload) =
    let r : HttpRequest = record {
      url = url;
      payload = payload;
      authorization = services.digest (signed_text secret body);
    } in
    if services.is_url url
    then answered services resp r (services.answer r)
    else refused resp not_created

unfoldable pub exchange : Services → Bytes → Bytes → Body → OrderResponse → Sending
unfolding posted_to
exchange services url secret body resp =
    posted_to services url secret body resp (services.marshal body)

-- The entries that the bodies of both kinds of orders have.
abbrev common_body : ℤ → OrderRequest → Body
common_body now req =
    (codes "access_id", text (Str64.append_bytes req.token.key))
    ∷ (codes "tm", number now)
    ∷ (codes "market", text (Symbol.append_bytes req.intent.symbol))
    ∷ []

unfoldable pub market_body : ℤ → OrderRequest → Body
unfolding btcc_side
market_body now req =
    common_body now req
    ++ (codes "side", number (btcc_side req.intent.side))
      ∷ (codes "amount", text (Common.append_bytes req.intent.quantity))
      ∷ (codes "source", text (Str64.append_bytes req.intent.source))
      ∷ (codes "client_id", text (Str64.append_bytes req.intent.client_order_id))
      ∷ []

unfoldable pub limit_body : ℤ → OrderRequest → Body
unfolding btcc_side btcc_time_in_force
limit_body now req =
    common_body now req
    ++ (codes "side", number (btcc_side req.intent.side))
      ∷ (codes "price", text (Common.append_bytes req.intent.price))
      ∷ (codes "amount", text (Common.append_bytes req.intent.quantity))
      ∷ (codes "source", text (Str64.append_bytes req.intent.source))
      ∷ (codes "option", number (btcc_time_in_force req.intent.time_in_force))
      ∷ (codes "client_id", text (Str64.append_bytes req.intent.client_order_id))
      ∷ []

unfoldable pub place_order : Services → Bytes → ℤ → OrderRequest → Sending
unfolding exchange limit_body market_body new_response
place_order services base now req =
    let resp = new_response req in
    if not (req.intent.platform == platform_btcc)
    then refused resp mismatch_platform
    else if req.intent.type == type_limit
    then exchange services (base ++ codes "/btcc_api_trade/order/limit") req.token.secret
        (limit_body now req) resp
    else if req.intent.type == type_market
    then exchange services (base ++ codes "/btcc_api_trade/order/market") req.token.secret
        (market_body now req) resp
    else refused resp unsupported_type

-- `strconv.ParseInt(s, 10, 64)` without its error: 0 for what is no number, and the nearest int64 for one
-- out of range. `digits_from` is ParseUint, whose range error comes before later bytes are read.
unfoldable pub digits_from : ℕ → Bytes → ℕ
digits_from n [] = n
digits_from n (c ∷ s) =
    let next = n * 10 + (c - b'0') in
    let rest = digits_from next s in
    if not (leb b'0' c && leb c b'9') then 0 else if leb (2 ^ 64) next then 2 ^ 64 - 1 else rest

unfoldable pub signed_int : Bool → ℕ → ℤ
signed_int false un = if leb (2 ^ 63) un then pos (2 ^ 63 - 1) else pos un
signed_int true zero = pos 0
signed_int true (suc un) = if ltb (2 ^ 63) (suc un) then negsuc (2 ^ 63 - 1) else negsuc un

unfoldable pub parse_int : Bytes → ℤ
unfolding digits_from signed_int
parse_int [] = pos 0
parse_int (c ∷ s) =
    if c == b'-'
    then signed_int true (digits_from 0 s)
    else if c == b'+'
    then signed_int false (digits_from 0 s)
    else signed_int false (digits_from 0 (c ∷ s))

unfoldable pub cancel_order : Services → Bytes → ℤ → OrderRequest → Sending
unfolding exchange new_response parse_int
cancel_order services base now req =
    let resp = new_response req in
    let id = parse_int (Str64.append_bytes req.intent.id) in
    if not (req.intent.platform == platform_btcc)
    then refused resp mismatch_platform
    else if is_zero id
    then refused resp no_id
    else exchange services (base ++ codes "/btcc_api_trade/order/cancel") req.token.secret
        (common_body now req ++ (codes "id", number id) ∷ []) resp

-- `adapter.OrderResponse{}`
abbrev empty_response : OrderResponse
empty_response =
    let intent : OrderIntent = record {
      symbol = copy_into 32 [];
      platform = 0;
      action = 0;
      type = 0;
      side = 0;
      price = record { integer = pos 0; scale = 0 };
      quantity = record { integer = pos 0; scale = 0 };
      time_in_force = 0;
      created_time = pos 0;
      id = new_str64 [];
      client_order_id = new_str64 [];
      source = new_str64 [];
    } in
    new_response
      (record { intent = intent; token = record { key = new_str64 []; secret = new_str64 [] } })

unfoldable pub send : Services → Bytes → ℤ → OrderRequest → Sending
unfolding place_order cancel_order new_response
send services base now req =
    if req.intent.action == action_place_order
    then place_order services base now req
    else if req.intent.action == action_cancel_order
    then cancel_order services base now req
    else refused empty_response unsupported_action

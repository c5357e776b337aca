-- ===== src/Ingest/Binance/Decode.antt =====
-- bundle/internal/ingest/binance/payload.go: the decoders of depth and order messages. The clock is an
-- argument, and `Encode` (generated code over unsafe memory) is left to the caller. The result of a
-- decoder that fails is not read, so that it is `none`.
use go_hft.Prelude.{
  ℕ, ◌*◌, Bool, true, false, Option, none, some, List, ◌==◌, if◌then◌else◌, ◌||◌, ◌&&◌, ◌⊎◌, inl,
  inr, not, Bytes, codes, bytes_eq, length,
}
use go_hft.Prelude.Int.{ℤ, pos, negsuc}
use go_hft.Adapter.Common.{Decimal}
use go_hft.Adapter.Order.{Order}
use go_hft.Adapter.Str64.{copy_into}
use go_hft.Adapter.Enum.{
  platform_binance, topic_depth, topic_order, topic_is_available, side_buy, side_sell, type_limit,
  type_market, status_placed, status_partial_filled, status_filled, status_canceled, status_expired,
  tif_gtc, tif_ioc, tif_fok,
}
use go_hft.Scanner.{◌>>=◌}
use go_hft.Ingest.Decimal.{parse_decimal, decimal_sub, to_int64}
use go_hft.Ingest.Binance.Payload.{
  quoted, scan_uint_field, scan_string_field, DepthRow, Depth, scan_depth_side,
}

unfoldable pub map_binance_side : Bytes → ℕ
map_binance_side value =
    if bytes_eq value (codes "BUY")
    then side_buy
    else if bytes_eq value (codes "SELL")
    then side_sell
    else 0

unfoldable pub map_binance_order_type : Bytes → ℕ
map_binance_order_type value =
    if bytes_eq value (codes "LIMIT")
    then type_limit
    else if bytes_eq value (codes "MARKET")
    then type_market
    else 0

unfoldable pub map_binance_order_status : Bytes → ℕ
map_binance_order_status value =
    if bytes_eq value (codes "NEW")
    then status_placed
    else if bytes_eq value (codes "PARTIALLY_FILLED")
    then status_partial_filled
    else if bytes_eq value (codes "FILLED")
    then status_filled
    else if bytes_eq value (codes "CANCELED") || bytes_eq value (codes "CANCELLED")
    then status_canceled
    else if bytes_eq value (codes "EXPIRED")
    then status_expired
    else 0

unfoldable pub map_binance_time_in_force : Bytes → ℕ
map_binance_time_in_force value =
    if bytes_eq value (codes "GTC")
    then tif_gtc
    else if bytes_eq value (codes "IOC")
    then tif_ioc
    else if bytes_eq value (codes "FOK")
    then tif_fok
    else 0

-- `int64(ms) * int64(time.Millisecond)`
unfoldable pub nanos : ℕ → ℤ
unfolding to_int64
nanos ms = to_int64 (ms * 1000000)

-- A field that is scanned and mapped, and what stays if it is missing.
abbrev pub mapped {ℓ κ} : {A : Type ℓ} {B : Type κ} → B → (A → B) → Option A → B
mapped b f none = b
mapped b f (some value) = f value

-- A decimal that may be missing; the outer `none` is the error of a value that is no decimal.
unfoldable pub decimal_field : Bytes → Bytes → Option (Option Decimal)
unfolding scan_string_field parse_decimal
decimal_field payload key = elim (scan_string_field payload key) [
  | none ↦ some none
  | some text ↦ elim (parse_decimal text) [ none ↦ none | some d ↦ some (some d) ]
]

unfoldable pub depth_side : Bytes → Bytes → Bytes → List DepthRow
unfolding scan_depth_side
depth_side payload key alt =
    let (rows, found) = scan_depth_side payload key in
    let (rows_alt, found_alt) = scan_depth_side payload alt in if found then rows else rows_alt

unfoldable pub decode_binance_depth : ℤ → Bytes → Bytes → Option Depth
unfolding scan_uint_field nanos depth_side
decode_binance_depth now payload symbol =
    let bids = depth_side payload (quoted (codes "b")) (quoted (codes "bids")) in
    let asks = depth_side payload (quoted (codes "a")) (quoted (codes "asks")) in
    let depth : Depth = record {
      symbol = symbol;
      event_ts_nano = mapped (pos 0) nanos (scan_uint_field payload (quoted (codes "E")));
      recv_ts_nano = now;
      platform = platform_binance;
      bids = bids;
      asks = asks;
    } in
    if length bids == 0 && length asks == 0 then none else some depth

abbrev pub is_zero : ℤ → Bool
is_zero (pos n) = n == 0
is_zero (negsuc n) = false

abbrev pub is_none {ℓ} : {A : Type ℓ} → Option A → Bool
is_none none = true
is_none (some a) = false

-- The zero value of a decimal.
abbrev pub zero_decimal : Decimal
zero_decimal = record { integer = pos 0; scale = 0 }

-- The quantity that is left, from the order's quantity and the filled one.
left_quantity_of : Option Decimal → Option Decimal → Decimal
left_quantity_of none cum = zero_decimal
left_quantity_of (some qty) none = qty
left_quantity_of (some qty) (some cum) = decimal_sub qty cum

abbrev string_of : Bytes → Bytes → Option Bytes
unfolding scan_string_field
string_of payload name = scan_string_field payload (quoted name)

unfoldable pub decode_binance_order : ℤ → Bytes → Bytes → Option Order
unfolding scan_uint_field decimal_field nanos left_quantity_of
decode_binance_order now payload symbol = do
  let event_ts = mapped (pos 0) nanos (scan_uint_field payload (quoted (codes "E")))
  let id = mapped (pos 0) to_int64 (scan_uint_field payload (quoted (codes "i")))
  qty ← decimal_field payload (quoted (codes "q"))
  price ← decimal_field payload (quoted (codes "p"))
  cum ← decimal_field payload (quoted (codes "z"))
  let order : Order = record {
    id = id;
    symbol = symbol;
    event_ts_nano = event_ts;
    recv_ts_nano = now;
    platform = platform_binance;
    type = mapped 0 map_binance_order_type (string_of payload (codes "o"));
    side = mapped 0 map_binance_side (string_of payload (codes "S"));
    status = mapped 0 map_binance_order_status (string_of payload (codes "X"));
    price = mapped zero_decimal (λ d. d) price;
    quantity = mapped zero_decimal (λ d. d) qty;
    left_quantity = left_quantity_of qty cum;
    time_in_force = mapped 0 map_binance_time_in_force (string_of payload (codes "f"));
    updated_time = mapped event_ts nanos (scan_uint_field payload (quoted (codes "T")));
    source = copy_into 64 (codes "binance");
  }
  if is_zero id && is_none qty then none else some order

-- The two errors of the package.
pub data PayloadError : Type 0 where
  invalid_payload invalid_request : PayloadError

pub data MarketData : Type 0 where
  depth_data : Depth → MarketData
  order_data : Order → MarketData

-- `DecodeMarketDataPayload` up to the encoding.
unfoldable pub decode_market_data_payload : ℤ → ℕ → Bytes → Bytes → PayloadError ⊎ MarketData
unfolding topic_is_available decode_binance_depth decode_binance_order
decode_market_data_payload now topic symbol payload =
    if not (topic_is_available topic)
    then inl invalid_request
    else if length payload == 0
    then inl invalid_payload
    else if topic == topic_depth
    then elim (decode_binance_depth now payload symbol) [
      | none ↦ inl invalid_payload
      | some depth ↦ inr (depth_data depth)
    ]
    else if topic == topic_order
    then elim (decode_binance_order now payload symbol) [
      | none ↦ inl invalid_payload
      | some order ↦ inr (order_data order)
    ]
    else inl invalid_request

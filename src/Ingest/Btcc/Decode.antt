-- ===== src/Ingest/Btcc/Decode.antt =====
-- bundle/internal/ingest/btcc/payload.go: the decoders of depth and order messages. The clock, the
-- float64 operations and the bytes behind the payload in its buffer are arguments; `Encode` is left to
-- the caller. Here a number that is no decimal is passed over, as a missing one is.
use go_hft.Prelude.{
  ℕ, Option, none, some, List, [], ◌==◌, if◌then◌else◌, ◌&&◌, not, Bytes, codes, length,
}
use go_hft.Prelude.Int.{ℤ, pos, negsuc}
use go_hft.Adapter.Common.{Decimal}
use go_hft.Adapter.Order.{Order}
use go_hft.Adapter.Str64.{copy_into}
use go_hft.Adapter.Enum.{
  platform_btcc, topic_depth, topic_order, topic_is_available, side_buy, side_sell, type_limit,
  type_market, status_placed, status_partial_filled, status_filled, status_canceled, status_expired,
  tif_gtc, tif_ioc, tif_fok,
}
use go_hft.Scanner.{◌>>=◌}
use go_hft.Ingest.Decimal.{parse_decimal, decimal_sub}
use go_hft.Ingest.Binance.Payload.{quoted, DepthRow, Depth}
use go_hft.Ingest.Binance.Decode.{
  mapped, is_zero, is_none, zero_decimal, PayloadError, invalid_payload, invalid_request,
  MarketData, depth_data, order_data,
}
use go_hft.Ingest.Btcc.Params.{Found, found, missing, panics, scan_params_value}
use go_hft.Ingest.Btcc.Fields.{
  scan_number_field, scan_depth_side, parse_json_int, parse_json_timestamp, scan_params_int, Floats,
}

unfoldable pub map_btcc_side : ℤ → ℕ
map_btcc_side (negsuc n) = 0
map_btcc_side (pos n) = if n == 1 then side_buy else if n == 2 then side_sell else 0

unfoldable pub map_btcc_order_type : ℤ → ℕ
map_btcc_order_type (negsuc n) = 0
map_btcc_order_type (pos n) = if n == 1 then type_limit else if n == 2 then type_market else 0

unfoldable pub map_btcc_order_status : ℤ → ℕ
map_btcc_order_status (negsuc n) = 0
map_btcc_order_status (pos n) =
    if n == 1
    then status_placed
    else if n == 2
    then status_partial_filled
    else if n == 3
    then status_filled
    else if n == 4
    then status_canceled
    else if n == 5
    then status_expired
    else 0

unfoldable pub map_btcc_time_in_force : ℤ → ℕ
map_btcc_time_in_force (negsuc n) = 0
map_btcc_time_in_force (pos n) =
    if n == 1 then tif_gtc else if n == 2 then tif_ioc else if n == 3 then tif_fok else 0

abbrev pub number_of : Bytes → Bytes → Option Bytes
unfolding scan_number_field
number_of payload name = scan_number_field payload (quoted name)

-- A side that fails counts no rows.
unfoldable pub depth_side : Bytes → Bytes → List DepthRow
unfolding scan_depth_side
depth_side payload name =
    let (rows, ok) = scan_depth_side payload (quoted name) in if ok then rows else []

-- What a decoder answers of a payload that it can look into; `none` is ErrInvalidPayload.
unfoldable pub depth_of : {F : Type 0} → Floats F → ℤ → Bytes → Bytes → Option Depth
unfolding parse_json_timestamp depth_side
depth_of floats now symbol orderbook =
    let bids = depth_side orderbook (codes "bids") in
    let asks = depth_side orderbook (codes "asks") in
    let depth : Depth = record {
      symbol = symbol;
      event_ts_nano =
          mapped (pos 0) (λ t. t)
            (number_of orderbook (codes "time") >>= parse_json_timestamp floats);
      recv_ts_nano = now;
      platform = platform_btcc;
      bids = bids;
      asks = asks;
    } in
    if length bids == 0 && length asks == 0 then none else some depth

-- `left`, or else what `deal_stock` leaves of the quantity.
unfoldable pub left_quantity_of : Option Decimal → Option Bytes → Option Bytes → Decimal
unfolding parse_decimal
left_quantity_of qty (some left) deal = mapped zero_decimal (λ d. d) (parse_decimal left)
left_quantity_of qty none none = zero_decimal
left_quantity_of none none (some deal) = zero_decimal
left_quantity_of (some qty) none (some deal) =
    mapped zero_decimal (decimal_sub qty) (parse_decimal deal)

abbrev int_of : Bytes → Bytes → Option ℤ
unfolding parse_json_int
int_of value name = number_of value name >>= parse_json_int

unfoldable pub order_of : {F : Type 0} → Floats F → ℤ → Bytes → Option ℤ → Bytes → Option Order
unfolding parse_json_timestamp parse_decimal left_quantity_of int_of
order_of floats now symbol status value =
    let id = mapped (pos 0) (λ n. n) (int_of value (codes "id")) in
    let qty = number_of value (codes "amount") >>= parse_decimal in
    let event_ts =
      mapped (pos 0) (λ t. t) (number_of value (codes "ctime") >>= parse_json_timestamp floats) in
    let updated =
      mapped (pos 0) (λ t. t) (number_of value (codes "mtime") >>= parse_json_timestamp floats) in
    let order : Order = record {
      id = id;
      symbol = symbol;
      event_ts_nano = event_ts;
      recv_ts_nano = now;
      platform = platform_btcc;
      type = mapped 0 map_btcc_order_type (int_of value (codes "type"));
      side = mapped 0 map_btcc_side (int_of value (codes "side"));
      status = mapped 0 map_btcc_order_status status;
      price = mapped zero_decimal (λ d. d) (number_of value (codes "price") >>= parse_decimal);
      quantity = mapped zero_decimal (λ d. d) qty;
      left_quantity =
          left_quantity_of qty (number_of value (codes "left"))
            (number_of value (codes "deal_stock"));
      time_in_force = mapped 0 map_btcc_time_in_force (int_of value (codes "option"));
      updated_time = if is_zero updated then event_ts else updated;
      source = copy_into 64 (codes "btcc");
    } in
    if is_zero id && is_none qty then none else some order

-- What a decoder comes to: a value, an error, or the panic of a slice.
pub data Decoded {ℓ} (A : Type ℓ) : Type ℓ where
  decoded : A → Decoded A
  failed : PayloadError → Decoded A
  panicked : Decoded A

abbrev pub from_option {ℓ κ} : {A : Type ℓ} {B : Type κ} → (A → B) → Option A → Decoded B
from_option f none = failed invalid_payload
from_option f (some a) = decoded (f a)

abbrev pub from_found {ℓ κ} : {A : Type ℓ} {B : Type κ} → Found A → (A → Decoded B) → Decoded B
from_found missing f = failed invalid_payload
from_found panics f = panicked
from_found (found a) f = f a

-- The status is missing at first, and stays so if it is not found.
abbrev pub with_status {ℓ} : {B : Type ℓ} → Found ℤ → (Option ℤ → Decoded B) → Decoded B
with_status missing f = f none
with_status panics f = panicked
with_status (found status) f = f (some status)

unfoldable pub decode_btcc_depth :
    {F : Type 0} → Floats F → ℤ → Bytes → Bytes → Bytes → Decoded MarketData
unfolding scan_params_value depth_of
decode_btcc_depth floats now beyond payload symbol =
    from_found (scan_params_value beyond payload 1)
      (λ orderbook. from_option depth_data (depth_of floats now symbol orderbook))

unfoldable pub decode_btcc_order :
    {F : Type 0} → Floats F → ℤ → Bytes → Bytes → Bytes → Decoded MarketData
unfolding scan_params_int scan_params_value order_of
decode_btcc_order floats now beyond payload symbol =
    with_status (scan_params_int beyond payload 0) (λ status.
      from_found (scan_params_value beyond payload 1)
        (λ value. from_option order_data (order_of floats now symbol status value)))

-- `DecodeMarketDataPayload` up to the encoding.
unfoldable pub decode_market_data_payload :
    {F : Type 0} → Floats F → ℤ → ℕ → Bytes → Bytes → Bytes → Decoded MarketData
unfolding topic_is_available decode_btcc_depth decode_btcc_order
decode_market_data_payload floats now topic symbol beyond payload =
    if not (topic_is_available topic)
    then failed invalid_request
    else if length payload == 0
    then failed invalid_payload
    else if topic == topic_depth
    then decode_btcc_depth floats now beyond payload symbol
    else if topic == topic_order
    then decode_btcc_order floats now beyond payload symbol
    else failed invalid_request

-- ===== src/Adapter/Order.antt =====
-- libs/adapter: an order, an order request and its response. The fields that the response's own
-- methods read are those of order_response.go; err.Error() is the text of the error.
use go_hft.Prelude.{ℕ, Bool, false, Option, none, some, ◌==◌, if◌then◌else◌, Bytes, not}
use go_hft.Prelude.Int.{ℤ, pos, negsuc}
use go_hft.Adapter.Common.{Decimal}
use go_hft.Adapter.Str64.{new_str64, len}

pub record Order : Type 0 where
  pub id : ℤ
  pub symbol : Bytes
  pub event_ts_nano : ℤ
  pub recv_ts_nano : ℤ
  pub platform : ℕ
  pub type : ℕ
  pub side : ℕ
  pub status : ℕ
  pub price : Decimal
  pub quantity : Decimal
  pub left_quantity : Decimal
  pub time_in_force : ℕ
  pub updated_time : ℤ
  pub source : Bytes

pub record OrderIntent : Type 0 where
  pub symbol : Bytes
  pub platform : ℕ
  pub action : ℕ
  pub type : ℕ
  pub side : ℕ
  pub price : Decimal
  pub quantity : Decimal
  pub time_in_force : ℕ
  pub created_time : ℤ
  pub id : Bytes
  pub client_order_id : Bytes
  pub source : Bytes

pub record Token : Type 0 where
  pub key : Bytes
  pub secret : Bytes

pub new_token : Bytes → Bytes → Token
new_token key secret = record { key = new_str64 key; secret = new_str64 secret }

pub record OrderRequest : Type 0 where
  pub intent : OrderIntent
  pub token : Token

pub record OrderResponse : Type 0 where
  pub request : OrderRequest
  pub order_id : Bytes
  pub sent : Bool
  pub code : ℤ
  pub msg : Bytes

abbrev pub code_internal_error : ℤ
code_internal_error = negsuc 998

unfoldable pub set_internal_error : Bytes → OrderResponse → OrderResponse
set_internal_error text resp = record resp { code = code_internal_error; msg = new_str64 text }

unfoldable pub set_error : ℤ → Bytes → OrderResponse → OrderResponse
set_error code msg resp = record resp { code = code; msg = new_str64 msg }

pub data OrderError : Type 0 where
  request_not_sent response_btcc_code response_btcc_msg : OrderError

abbrev pub is_zero : ℤ → Bool
is_zero (pos n) = n == 0
is_zero (negsuc n) = false

-- `Error`: `none` is nil.
unfoldable pub error : OrderResponse → Option OrderError
error resp =
    if not resp.sent
    then some request_not_sent
    else if not (is_zero resp.code)
    then some response_btcc_code
    else if not (len resp.msg == 0)
    then some response_btcc_msg
    else none

-- ===== src/Adapter/Enum.antt =====
-- libs/adapter/enum: platforms, topics and the enumerations of an order. Each is a uint8 that counts
-- from a marker 0 to an end marker, and what lies strictly between is available.
use go_hft.Prelude.{ℕ, Bool, ◌&&◌, ltb}

abbrev pub platform_btcc : ℕ
platform_btcc = 1

abbrev pub platform_binance : ℕ
platform_binance = 2

unfoldable pub platform_is_available : ℕ → Bool
platform_is_available p = ltb 0 p && ltb p 3

abbrev pub topic_depth : ℕ
topic_depth = 1

abbrev pub topic_order : ℕ
topic_order = 2

unfoldable pub topic_is_available : ℕ → Bool
topic_is_available t = ltb 0 t && ltb t 3

abbrev pub action_place_order : ℕ
action_place_order = 1

abbrev pub action_cancel_order : ℕ
action_cancel_order = 2

unfoldable pub action_is_available : ℕ → Bool
action_is_available t = ltb 0 t && ltb t 3

abbrev pub side_buy : ℕ
side_buy = 1

abbrev pub side_sell : ℕ
side_sell = 2

unfoldable pub side_is_available : ℕ → Bool
side_is_available s = ltb 0 s && ltb s 3

abbrev pub type_limit : ℕ
type_limit = 1

abbrev pub type_market : ℕ
type_market = 2

unfoldable pub type_is_available : ℕ → Bool
type_is_available t = ltb 0 t && ltb t 3

abbrev pub status_placed : ℕ
status_placed = 1

abbrev pub status_partial_filled : ℕ
status_partial_filled = 2

abbrev pub status_filled : ℕ
status_filled = 3

abbrev pub status_canceled : ℕ
status_canceled = 4

abbrev pub status_expired : ℕ
status_expired = 5

unfoldable pub status_is_available : ℕ → Bool
status_is_available s = ltb 0 s && ltb s 6

abbrev pub tif_gtc : ℕ
tif_gtc = 1

abbrev pub tif_ioc : ℕ
tif_ioc = 2

abbrev pub tif_fok : ℕ
tif_fok = 3

unfoldable pub tif_is_available : ℕ → Bool
tif_is_available s = ltb 0 s && ltb s 4

-- ===== src/Tests/Orders.antt =====
-- Runs of the delegator of orders (bundle/internal/order/delegator/btcc).
use go_hft.Prelude.{◌≡◌, refl, ◌⊎◌, some, none, true, [], ◌∷◌, codes}
use go_hft.Prelude.Int.{pos, negsuc}
use go_hft.Adapter.Enum.{platform_btcc, action_cancel_order, type_limit, side_sell, tif_gtc}
use go_hft.Adapter.Symbol.{new_symbol}
use go_hft.Adapter.Str64.{new_str64, append_bytes}
use go_hft.Adapter.Order.{OrderIntent, OrderRequest}
use go_hft.Order.Btcc.{Services, Body, text, number, signed_text, not_after, send, parse_int}
use go_hft.Order.Btcc.Answers.{IsUnsent, IsAnswered, send_ends}
use go_hft.Order.Btcc.Sorted.{signed_text-Perm}
use mathlib.Core.List.{Perm, Permᴰ}

-- An exchange that answers every request with order 12.
abbrev services : Services
services = record {
  marshal = λ body. some (codes "{}");
  is_url = λ url. true;
  answer = λ q. some (codes "{}");
  decode_body =
      λ body. (record { error = record { code = pos 0; message = [] }; id = pos 12 }, none);
  digest = λ bytes. bytes;
}

abbrev intent : OrderIntent
intent = record {
  symbol = new_symbol (codes "BTC") (codes "USDT") [];
  platform = platform_btcc;
  action = action_cancel_order;
  type = type_limit;
  side = side_sell;
  price = record { integer = pos 125; scale = 1 };
  quantity = record { integer = pos 2; scale = 0 };
  time_in_force = tif_gtc;
  created_time = pos 0;
  id = new_str64 (codes "77");
  client_order_id = new_str64 (codes "c");
  source = new_str64 (codes "web");
}

abbrev request : OrderRequest
request = record {
  intent = intent;
  token = record { key = new_str64 (codes "k"); secret = new_str64 (codes "s") };
}

send_ends_example :
    IsUnsent services (send services (codes "https://x") (pos 9) request)
    ⊎ IsAnswered services (send services (codes "https://x") (pos 9) request)
send_ends_example = send_ends services (codes "https://x") (pos 9) request

abbrev body : Body
body = (codes "tm", number (pos 9)) ∷ (codes "market", text (codes "BTCUSDT")) ∷ []

abbrev walked : Body
walked = (codes "market", text (codes "BTCUSDT")) ∷ (codes "tm", number (pos 9)) ∷ []

walked-Perm : Perm walked body
walked-Perm = ∣ Permᴰ.swap refl refl ∣₁

signed_text-Perm_example :
    signed_text (new_str64 (codes "s")) walked ≡ signed_text (new_str64 (codes "s")) body
signed_text-Perm_example = signed_text-Perm (new_str64 (codes "s")) body walked walked-Perm

-- The pairs come sorted.
signed_text_run :
    signed_text
      (new_str64 (codes "s"))
      ((codes "tm", text (codes "9")) ∷ (codes "id", text (codes "7")) ∷ [])
    ≡ codes "id=7&secret_key=s&tm=9"
unfolding signed_text new_str64 append_bytes not_after
signed_text_run = refl

parse_int_run : parse_int (codes "-42") ≡ negsuc 41
unfolding parse_int
parse_int_run = refl

-- ===== src/Tests/Adapter.antt =====
-- Runs of symbols and strings of fixed size (libs/adapter/symbol.go, libs/adapter/str64.go).
use go_hft.Prelude.{◌≡◌, [], ◌++◌, arith, codes, take, length}
use go_hft.Adapter.Symbol.{decode, new_symbol, append_bytes}
use go_hft.Adapter.Symbol.RoundTrip.{decode-new_symbol}
use go_hft.Adapter.Str64.{new_str64, len, append_bytes-new_str64}
use go_hft.Adapter.Str64 as Str64

decode-new_symbol_example :
    (decode (new_symbol (codes "BTC") (codes "USDT") (codes "x"))
      ≡ (take 16 (codes "BTC"), take 16 (codes "USDT"), []))
    × (append_bytes (new_symbol (codes "BTC") (codes "USDT") (codes "x"))
        ≡ take 16 (codes "BTC") ++ take 16 (codes "USDT"))
decode-new_symbol_example =
    decode-new_symbol (codes "BTC") (codes "USDT") (codes "x") (ground arith) (ground arith)

append_bytes-new_str64_example :
    (Str64.append_bytes (new_str64 (codes "key")) ≡ take 64 (codes "key"))
    × (len (new_str64 (codes "key")) ≡ length (Str64.append_bytes (new_str64 (codes "key"))))
append_bytes-new_str64_example = append_bytes-new_str64 (codes "key") (ground arith)

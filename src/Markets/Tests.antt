-- ===== src/Markets/Tests.antt =====
-- The markets of a small exchange (src/execution/execution.cpp).
use single_exchange_triangul.Common.{ℕ, ◌≡◌, refl, some, List, [], ◌∷◌, length, get_elem?}
use single_exchange_triangul.Common.Int.{ℤ}
use single_exchange_triangul.Common.Dict.{lookup}
use single_exchange_triangul.Trading.{Market}
use single_exchange_triangul.Samples.{whole, config, market}
use single_exchange_triangul.Json.Samples.{Json, json_document, digit_parser, info}
use single_exchange_triangul.Arbitrage.Markets.{Any}
use single_exchange_triangul.Markets.{load_markets}
use single_exchange_triangul.Markets.Loaded.{Describes, loaded_markets}

abbrev expected : List (Market ℤ)
expected =
    market "BTCUSDT" "BTC" "USDT" ∷ market "ETHBTC" "ETH" "BTC" ∷ market "ETHUSDT" "ETH" "USDT" ∷ []

loads : load_markets config info ≡ some expected
unfolding load_markets
loads = refl

loaded_markets_example :
    (symbols : Json) × (json_document.field info "symbols" ≡ some symbols)
    × (length expected ≡ length config.symbols)
    × ((i : ℕ) (m : Market ℤ)
        → get_elem? expected i ≡ some m
        → (lookup m.symbol config.symbol_indices ≡ some i)
          × Any (Describes m) (json_document.elements symbols))
loaded_markets_example = loaded_markets config info loads

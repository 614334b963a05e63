-- ===== src/Arbitrage/Tests.antt =====
-- A run of `validate_arbitrage` (src/orderbook.cpp).
use single_exchange_triangul.Common.{◌≡◌, refl, String, true, some, [], ◌∷◌, length}
use single_exchange_triangul.Common.Dict.{Dict, lookup}
use single_exchange_triangul.Samples.{config, group}
use single_exchange_triangul.Books.{groups_ok}
use single_exchange_triangul.Json.Samples.{
  Json, Items, word, truth, array, object, nil, cons, end, entry, json_document,
}
use single_exchange_triangul.Arbitrage.{Assets, validate_arbitrage}
use single_exchange_triangul.Arbitrage.Markets.{Any, Offered}
use single_exchange_triangul.Arbitrage.Groups.{AllTradable, validated_groups, validated_groups_ok}

abbrev listing : String → String → String → Json
listing symbol base quote = object (
    entry "symbol" (word symbol) (
      entry "status" (word "TRADING") (
        entry "isSpotTradingAllowed" (truth true)
          (entry "baseAsset" (word base) (entry "quoteAsset" (word quote) end)))))

abbrev listings : Items
listings = cons (listing "ETHUSDT" "ETH" "USDT") (
    cons (listing "XRPUSDT" "XRP" "USDT")
      (cons (listing "BTCUSDT" "BTC" "USDT") (cons (listing "ETHBTC" "ETH" "BTC") nil)))

abbrev exchange_info : Json
exchange_info = object (entry "symbols" (array listings) end)

validates : validate_arbitrage config exchange_info ≡ some (group ∷ [])
unfolding validate_arbitrage
validates = refl

validated_groups_example :
    (symbols : Json) × (markets : Dict Assets) × (json_document.field exchange_info "symbols"
      ≡ some symbols)
    × ((symbol : String) (assets : Assets)
        → lookup symbol markets ≡ some assets
        → Any (Offered symbol assets) (json_document.elements symbols))
    × AllTradable config markets config.triangle_indices (group ∷ [])
validated_groups_example = validated_groups config exchange_info validates

validated_groups_ok_example : groups_ok (length config.symbols) (group ∷ []) ≡ true
validated_groups_ok_example = validated_groups_ok config exchange_info validates

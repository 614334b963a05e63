-- ===== src/Intake/Tests.antt =====
-- Three messages, and an answer to a subscription (src/receiver.cpp).
use mathlib.Core.Path.{subst}
use mathlib.Core.Option.{some-injective}
use text.Mathlib.TextEquality.{eq_iff}
use single_exchange_triangul.Common.{
  ℕ, zero, suc, ◌<◌, ◌%◌, ◌^◌, ◌≡◌, refl, String, none, some, List, [], ◌∷◌, ◌==◌, length,
  get_elem?, if◌then◌else◌, arith,
}
use single_exchange_triangul.Common.Dict.{lookup}
use single_exchange_triangul.Common.Int.{ℤ, pos}
use single_exchange_triangul.Trading.{Level, OrderBook, ArbitrageOpportunity, thrice}
use single_exchange_triangul.Samples.{book_at, whole, config, forth}
use single_exchange_triangul.Prices.{decimal, decimal_from, add_digit, decimal_pair, rescale}
use single_exchange_triangul.Depth.{decode_partial_depth}
use single_exchange_triangul.Books.{
  new_books, update, update_all, scan_edge, scan_groups, scan_group, scan_path, scan_leg, quote_leg,
  candidate_of, worthwhile, has_index, groups_ok, group_ok,
}
use single_exchange_triangul.Triangles.Indices.{Consistent}
use single_exchange_triangul.Intake.{
  Intake, Effect, first_orderbook, arbitrage_edge, handed_on, receiver_orderbook, new_intake,
  process, handle,
}
use single_exchange_triangul.Intake.Reads.{opportunities}
use single_exchange_triangul.Intake.Rounds.{symbols_of}
use single_exchange_triangul.Intake.Edges.{edges_after}
use single_exchange_triangul.Intake.Run.{tally, books_in, process_returns}
use single_exchange_triangul.Intake.Samples.{
  Part, part_message, part_parsing, string_of, raws, empty_books,
}

made : new_books config ≡ some empty_books
unfolding new_books groups_ok group_ok
made = refl

entries :
    (s : String) (i : ℕ)
    → get_elem? config.symbols i ≡ some s
    → lookup s config.symbol_indices ≡ some i
unfolding lookup
entries s zero e =
    subst (λ k. lookup k config.symbol_indices ≡ some 0) (some-injective "BTCUSDT" s e) refl
entries s (suc zero) e =
    subst (λ k. lookup k config.symbol_indices ≡ some 1) (some-injective "ETHBTC" s e) refl
entries s (suc (suc zero)) e =
    subst (λ k. lookup k config.symbol_indices ≡ some 2) (some-injective "ETHUSDT" s e) refl
entries s (suc (suc (suc i))) e = cc

indices_Consistent : Consistent (symbols_of config)
unfolding lookup
indices_Consistent = record {
  places = λ s i e. ground (arith, eq_iff "BTCUSDT" s, eq_iff "ETHBTC" s, eq_iff "ETHUSDT" s);
  entries = entries;
}

process_returns_example :
    let us = books_in Part string_of config.symbol_indices raws in
    (t : Intake ℤ) × (es : List (Effect ℤ)) × (process Part string_of config.symbols raws
        (new_intake config empty_books)
      ≡ some (t, es))
    × (update_all us empty_books ≡ some t.books)
    × ((i : ℕ) → i < length config.symbols → get_elem? t.counts i ≡ some (tally i us % 2 ^ 64))
    × (t.received ≡ length us % 2 ^ 64)
    × (opportunities es ≡ edges_after us empty_books)
process_returns_example = process_returns Part string_of config raws made indices_Consistent

abbrev edge : ArbitrageOpportunity ℤ
edge = record {
  group_index = 0;
  path = forth;
  prices = record { first = pos 1; second = pos 1; third = pos 3 };
  quantities = thrice (pos 8);
  book_update_ids = thrice 7;
  received_steady_ns = thrice 5;
  receive_sequences = record { first = 2; second = 3; third = 4 };
  input_usdt = pos 8;
  output_usdt = pos 24;
  profit_usdt = pos 16;
  net_return = pos 2;
}

abbrev effects : List (Effect ℤ)
effects =
    first_orderbook "BTCUSDT"
    ∷ receiver_orderbook 0 2
    ∷ first_orderbook "ETHBTC"
    ∷ receiver_orderbook 1 3
    ∷ first_orderbook "ETHUSDT"
    ∷ arbitrage_edge config.symbols edge
    ∷ handed_on edge
    ∷ receiver_orderbook 2 4
    ∷ []

abbrev sided : ℕ → ℕ → OrderBook
sided k n =
    let one : Level = record {
      price = pos (if k == 2 then 3 else 1);
      qty = pos 9;
      price_exponent = pos 0;
      qty_exponent = pos 0;
    } in
    record (book_at (if k == 0 then "BTCUSDT" else if k == 1 then "ETHBTC" else "ETHUSDT")
      (if k == 2 then 3 else 1)) { receive_sequence = n; bids = one ∷ []; asks = one ∷ [] }

abbrev final : Intake ℤ
final = record {
  books = record empty_books {
    orderbooks = some (sided 0 2) ∷ some (sided 1 3) ∷ some (sided 2 4) ∷ [];
    populated = 3;
    received = 3;
  };
  counts = 1 ∷ 1 ∷ 1 ∷ [];
  received = 3;
  invalid = 0;
  log_rejected = 0;
  last_invalid_warning = none;
}

processed :
    process Part string_of config.symbols raws (new_intake config empty_books)
    ≡ some (final, effects)
unfolding process handle new_intake decode_partial_depth decimal decimal_from add_digit decimal_pair
    rescale scan_edge scan_groups scan_group scan_path scan_leg quote_leg candidate_of worthwhile
    has_index update lookup
processed = refl

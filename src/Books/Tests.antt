-- ===== src/Books/Tests.antt =====
-- Runs of the order book manager's model (src/orderbook.cpp).
use single_exchange_triangul.Common.{
  ℕ, ◌≡◌, refl, ◌<◌, ◌%◌, ◌^◌, true, none, some, List, [], ◌∷◌, arith, replicate, All,
}
use single_exchange_triangul.Common.Int.{ℤ, pos}
use single_exchange_triangul.Trading.{OrderBook, ArbitrageOpportunity, thrice}
use single_exchange_triangul.Samples.{whole, whole-StrictOrder, setup, config, book_at, forth}
use single_exchange_triangul.Executor.Cycle.{acceptable}
use single_exchange_triangul.Books.{
  Books, new_books, update, update_all, get, stats, scan_edge, scan_groups, scan_group, scan_path,
  scan_leg, quote_leg, candidate_of, worthwhile, has_index, groups_ok, group_ok,
}
use single_exchange_triangul.Books.Slots.{latest_books, last_book, filled_slots}
use single_exchange_triangul.Books.Scan.{Answer, scan_edge_sound, scan_edge-acceptable}

abbrev updates : List (ℕ × OrderBook)
updates =
    (0, book_at "BTCUSDT" 1)
    ∷ (1, book_at "ETHBTC" 1)
    ∷ (2, book_at "ETHUSDT" 2)
    ∷ (2, book_at "ETHUSDT" 3)
    ∷ []

abbrev empty_books : Books ℤ
empty_books = record {
  indices = config.symbol_indices;
  orderbooks = replicate 3 none;
  groups = config.trading_groups;
  max_arbitrage_usdt = pos 8;
  fee_multiplier = pos 1;
  edge_threshold = pos 0;
  populated = 0;
  received = 0;
}

made : new_books config ≡ some empty_books
unfolding new_books groups_ok group_ok
made = refl

abbrev full_books : Books ℤ
full_books = record empty_books {
  orderbooks =
      some (book_at "BTCUSDT" 1) ∷ some (book_at "ETHBTC" 1) ∷ some (book_at "ETHUSDT" 3) ∷ [];
  populated = 3;
  received = 4;
}

updated : update_all updates empty_books ≡ some full_books
unfolding update_all update
updated = refl

updates_listed : All (λ x. x.0 < 3) updates
updates_listed = ground arith

latest_books_example :
    (t : Books ℤ) × (update_all updates empty_books ≡ some t)
    × ((i : ℕ) → i < 3 → get t i ≡ some (last_book i updates none))
    × ((stats t).first ≡ 3)
    × ((stats t).second ≡ filled_slots t.orderbooks)
    × ((stats t).third ≡ 4 % 2 ^ 64)
latest_books_example = latest_books config updates made updates_listed

abbrev edge : ArbitrageOpportunity ℤ
edge = record {
  group_index = 0;
  path = forth;
  prices = record { first = pos 1; second = pos 1; third = pos 3 };
  quantities = thrice (pos 8);
  book_update_ids = thrice 7;
  received_steady_ns = thrice 5;
  receive_sequences = thrice 1;
  input_usdt = pos 8;
  output_usdt = pos 24;
  profit_usdt = pos 16;
  net_return = pos 2;
}

edge_found : scan_edge full_books 2 ≡ some (some edge)
unfolding scan_edge scan_groups scan_group scan_path scan_leg quote_leg candidate_of worthwhile
    has_index
edge_found = refl

scan_edge_sound_example : Answer full_books full_books.groups 0 2 edge
scan_edge_sound_example = scan_edge_sound full_books 2 edge_found

scan_edge-acceptable_example : acceptable setup edge ≡ true
scan_edge-acceptable_example =
    scan_edge-acceptable whole-StrictOrder setup updates made updated 2 edge_found

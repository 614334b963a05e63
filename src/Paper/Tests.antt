-- ===== src/Paper/Tests.antt =====
-- Runs of the paper gateway's model (src/execution/paper_gateway.cpp).
use single_exchange_triangul.Common.{ℕ, ◌≡◌, refl, true, false, none, [], ◌∷◌, arith, ◌+◌}
use single_exchange_triangul.Common.Int.{ℤ, pos}
use single_exchange_triangul.Common.Dict.{Dict}
use single_exchange_triangul.Samples.{whole, digits, markets, books}
use single_exchange_triangul.Executor.Defs.{OrderRequest, startup}
use single_exchange_triangul.Paper.{paper_ok, find_order, Exchange, Paper, fill, fill_all, query}
use single_exchange_triangul.Paper.Wallet.{Signs, Solvent, opened, wallet-Solvent}
use single_exchange_triangul.Paper.Orders.{Verdict, fill_idempotent, fill_or_kill}

abbrev exchange : Exchange ℤ
exchange = record { markets = markets; fee = pos 0 }

abbrev balances : Dict ℤ
balances = ("USDT", pos 8) ∷ []

-- An order for BTC at 2 USDT.
abbrev order : ℕ → ℕ → OrderRequest
order number quantity = record {
  client_id = record { cycle = startup 1; number = number };
  symbol_index = 0;
  buy = true;
  price = b'2' ∷ [];
  quantity = (b'0' + quantity) ∷ [];
  initial_clear = false;
}

balances_taken : paper_ok exchange balances ≡ true
unfolding paper_ok
balances_taken = refl

new_order : find_order (order 1 3).client_id (opened balances).orders ≡ none
unfolding find_order opened
new_order = refl

whole-Signs : Signs whole
whole-Signs = record {
  nought_sign = refl;
  le_lt = λ x y h. ground arith;
  minus_sign = λ x y h. ground arith;
  plus_sign = λ x y h k. ground arith;
  times_sign = λ x y h k. grind arith;
}

wallet-Solvent_example :
    Solvent
      (fill_all exchange ((books, order 1 3) ∷ (books, order 2 3) ∷ []) (opened balances)).wallet
wallet-Solvent_example =
    wallet-Solvent whole-Signs exchange balances ((books, order 1 3) ∷ (books, order 2 3) ∷ [])
      balances_taken

fill_or_kill_example :
    Verdict exchange books
      (order 1 3)
      (opened balances).wallet
      (fill exchange books (order 1 3) (opened balances))
fill_or_kill_example = fill_or_kill exchange books (order 1 3) (opened balances) refl new_order

abbrev between : Paper ℤ
between =
    fill_all exchange ((books, order 2 1) ∷ [])
      (fill exchange books (order 1 3) (opened balances)).0

fill_idempotent_example :
    (fill exchange [] (order 1 4) between
      ≡ (between, (fill exchange books (order 1 3) (opened balances)).1))
    × (query (order 1 4) between ≡ (fill exchange books (order 1 3) (opened balances)).1)
fill_idempotent_example =
    fill_idempotent exchange books [] (order 1 3) (order 1 4) ((books, order 2 1) ∷ [])
      (opened balances) refl

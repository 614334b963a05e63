-- ===== src/Arbitrage/Markets.antt =====
-- The markets that `validate_arbitrage` (src/orderbook.cpp) takes from the exchange.
use single_exchange_triangul.Common.{
  is_some, ◌⊎◌, String, true, false, some, List, [], ◌∷◌, ◌≡◌, arith, inl, inr, Bool-cases,
  >>=-eq-some, ◌>>=◌,
}
use mathlib.Core.Path.{subst, sym}
use text.Mathlib.Text.{◌==◌ as str_eq}
use text.Mathlib.TextEquality.{eq_iff}
use single_exchange_triangul.Common.Dict.{Dict, lookup, lookup-insert}
use single_exchange_triangul.Trading.{Config}
use single_exchange_triangul.Json.{Document, text_at}
use single_exchange_triangul.Arbitrage.{Assets, accept_market, add_market, add_markets}

-- Some element of the list has the property.
abbrev pub Any : {A : Type 0} → (A → Type 0) → List A → Type 0
Any P [] = ⊥
Any P (x ∷ xs) = P x ⊎ Any P xs

module _ {J : Type 0} ⦃j : Document J⦄ where
  -- The exchange offers the symbol for trading, as a market of two different assets.
  pub record Offered (symbol : String) (assets : Assets) (market : J) : Type 0 where
    pub named : text_at market "symbol" ≡ some symbol
    pub trading : text_at market "status" ≡ some "TRADING"
    pub spot : (j.field market "isSpotTradingAllowed" >>= j.flag) ≡ some true
    pub base : text_at market "baseAsset" ≡ some (assets.0)
    pub quote : text_at market "quoteAsset" ≡ some (assets.1)
    pub different : str_eq (assets.0) (assets.1) ≡ false

  accept_market-Offered :
      (x : J) (symbol : String) (m : Dict Assets) {m' : Dict Assets} (asked : String)
      {assets : Assets}
      → text_at x "symbol" ≡ some symbol
      → accept_market x symbol m ≡ some m'
      → lookup asked m' ≡ some assets
      → (lookup asked m ≡ some assets) ⊎ Offered asked assets x
  unfolding accept_market
  accept_market-Offered x symbol m {m'} asked {assets} named h found =
      let (status, e₁, h₁) = >>=-eq-some (text_at x "status") _ h in
      let (allowed, e₂, h₂) = >>=-eq-some (j.field x "isSpotTradingAllowed" >>= j.flag) _ h₁ in
      let (base, e₃, h₃) = >>=-eq-some (text_at x "baseAsset") _ h₂ in
      let (quote, e₄, h₄) = >>=-eq-some (text_at x "quoteAsset") _ h₃ in
      elim (Bool-cases (is_some (lookup symbol m))) [
        | inl there ↦ inl (ground arith)
        | inr new ↦ elim (Bool-cases (str_eq symbol asked)) [
          | inl this ↦
              let added = lookup-insert asked symbol (base, quote) m in
              let made : assets ≡ (base, quote) = ground arith in
              inr (
                subst (λ a. Offered asked a x) (sym made)
                  (record {
                    named = ground (arith, eq_iff symbol asked);
                    trading = ground (arith, eq_iff status "TRADING");
                    spot = ground arith;
                    base = e₃;
                    quote = e₄;
                    different = ground arith;
                  }))
          | inr other ↦ inl (ground (arith, lookup-insert asked symbol (base, quote) m))
        ]
      ]

  module _ {F : Type 0} (c : Config F) where
    add_market-Offered :
        (x : J) (m : Dict Assets) {m' : Dict Assets} (asked : String) {assets : Assets}
        → add_market c x m ≡ some m'
        → lookup asked m' ≡ some assets
        → (lookup asked m ≡ some assets) ⊎ Offered asked assets x
    unfolding add_market
    add_market-Offered x m {m'} asked {assets} h found =
        let (symbol, e, h') = >>=-eq-some (text_at x "symbol") _ h in
        elim (Bool-cases (is_some (lookup symbol c.symbol_indices))) [
          | inl configured ↦ accept_market-Offered x symbol m {m' = m'} asked e (ground arith) found
          | inr foreign ↦ inl (ground arith)
        ]

    pub add_markets-Offered :
        (xs : List J) (m : Dict Assets) {m' : Dict Assets} (asked : String) {assets : Assets}
        → add_markets c xs m ≡ some m'
        → lookup asked m' ≡ some assets
        → (lookup asked m ≡ some assets) ⊎ Any (Offered asked assets) xs
    unfolding add_markets
    add_markets-Offered [] m asked h found = inl (ground arith)
    add_markets-Offered (x ∷ xs) m asked h found =
        let (more, e₁, h₁) = >>=-eq-some (add_market c x m) _ h in
        elim (add_markets-Offered xs more asked h₁ found) [
          | inl before ↦ elim (add_market-Offered x m asked e₁ before) [
            | inl first ↦ inl first
            | inr this ↦ inr (inl this)
          ]
          | inr later ↦ inr (inr later)
        ]

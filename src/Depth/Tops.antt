-- ===== src/Depth/Tops.antt =====
-- The best prices and quantities of a decoded book (src/orderbook.cpp).
use mathlib.Core.Path.{subst, sym, ap, ◌∙◌}
use mathlib.Core.Option.{some-injective}
use single_exchange_triangul.Common.{
  ℕ, suc, ◌<◌, ◌≤◌, ◌≡◌, refl, Option, some, none, List, [], ◌∷◌, length, >>=-eq-some, arith, All,
  get_elem?, ◌>>=◌,
}
use single_exchange_triangul.Common.Int.{ℤ, pos, negsuc}
use single_exchange_triangul.Decimal.{Text}
use single_exchange_triangul.Prices.{max_int64, Parsed, Pair, decimal}
use single_exchange_triangul.Prices.Value.{Bounded, Rescaled, decimal-Bounded, decimal_pair_exact}
use single_exchange_triangul.Streams.{symbol_of_stream}
use single_exchange_triangul.Depth.{
  Message, DepthLevel, Depth, update_id, number, level_of, read_levels, read_side, head_of,
  second_of, first_price, first_quantity, pair_of, decode_data, decode_partial_depth,
}

-- Every number of the level is within the source's integers.
abbrev pub Fits : DepthLevel → Type 0
Fits l = Bounded l.price × Bounded l.quantity

-- A side with between one and twenty levels.
pub record Side (levels : List DepthLevel) : Type 0 where
  pub best : DepthLevel
  pub first : get_elem? levels 0 ≡ some best
  pub most : length levels ≤ 20
  pub bounds : All Fits levels

-- The pair has the values of both numbers, at a scale that is an `std::int8_t`.
abbrev pub Aligned : Parsed → Parsed → Pair → Type 0
Aligned bid ask p =
    Rescaled bid p.scale p.bid_value × Rescaled ask p.scale p.ask_value × (p.scale ≤ 127)

-- What a decoded book promises to the order books and the executor.
pub record Decoded (d : Depth) : Type 0 where
  pub bids : Side d.bids
  pub asks : Side d.asks
  pub price : Aligned bids.best.price asks.best.price d.price
  pub quantity : Aligned bids.best.quantity asks.best.quantity d.quantity
  pub update : d.book_update_id ≤ max_int64

update_id-bound : (z : ℤ) {n : ℕ} → update_id z ≡ some n → n ≤ max_int64
unfolding update_id
update_id-bound (pos n) e = ground arith
update_id-bound (negsuc n) e = ground arith

module _ {J : Type 0} ⦃j : Message J⦄ where
  number-Bounded : (value : J) {v : Parsed} → number value ≡ some v → Bounded v
  unfolding number
  number-Bounded value {v} e =
      let (text, e₁, e₂) = >>=-eq-some (j.characters value) _ e in decimal-Bounded text {t = v} e₂

  -- The two numbers of a level.
  level_of-numbers :
      (parts : List J) {l : DepthLevel}
      → level_of parts ≡ some l
      → ((head_of parts >>= number) ≡ some l.price)
        × ((second_of parts >>= number) ≡ some l.quantity)
  unfolding level_of head_of second_of
  level_of-numbers [] e = ground arith
  level_of-numbers (p ∷ []) e = ground arith
  level_of-numbers (p ∷ q ∷ []) e = ground arith
  level_of-numbers (p ∷ q ∷ r ∷ ps) e = ground arith

  level_of-Fits : (parts : List J) {l : DepthLevel} → level_of parts ≡ some l → Fits l
  level_of-Fits parts {l} e =
      let (price, quantity) = level_of-numbers parts e in
      let (p, e₁, h₁) = >>=-eq-some (head_of parts) number price in
      let (q, e₂, h₂) = >>=-eq-some (second_of parts) number quantity in
      (number-Bounded p {v = l.price} h₁, number-Bounded q {v = l.quantity} h₂)

  read_levels-Fits :
      (levels : List J) {ls : List DepthLevel}
      → read_levels levels ≡ some ls
      → All Fits ls × (length ls ≡ length levels)
  unfolding read_levels
  read_levels-Fits [] e = subst (λ r. All Fits r × (length r ≡ 0)) (some-injective _ _ e) (_, refl)
  read_levels-Fits (x ∷ xs) e =
      let (parts, e₁, h₁) = >>=-eq-some (j.items x) _ e in
      let (level, e₂, h₂) = >>=-eq-some (level_of parts) _ h₁ in
      let (rest, e₃, h₃) = >>=-eq-some (read_levels xs) _ h₂ in
      let (fits, size) = read_levels-Fits xs e₃ in
      subst (λ r. All Fits r × (length r ≡ suc (length xs))) (some-injective _ _ h₃)
        ((level_of-Fits parts e₂, fits), ap suc size)

  first_level :
      (x : J) (xs : List J) {ls : List DepthLevel}
      → read_levels (x ∷ xs) ≡ some ls
      → (l : DepthLevel) × (parts : List J) × (get_elem? ls 0 ≡ some l)
        × (j.items x ≡ some parts)
        × (level_of parts ≡ some l)
  unfolding read_levels
  first_level x xs e =
      let (parts, e₁, h₁) = >>=-eq-some (j.items x) _ e in
      let (level, e₂, h₂) = >>=-eq-some (level_of parts) _ h₁ in
      let (rest, e₃, h₃) = >>=-eq-some (read_levels xs) _ h₂ in
      (level, parts, ap (λ r. get_elem? r 0) (sym (some-injective _ _ h₃)), e₁, e₂)

  -- The first level of a side is the one that the best price and quantity are read from.
  abbrev Best : J → List DepthLevel → Type 0
  Best side ls =
      (s : Side ls) × ((first_price side >>= number) ≡ some s.best.price)
      × ((first_quantity side >>= number) ≡ some s.best.quantity)

  levels-Best :
      (side : J) (levels : List J) {ls : List DepthLevel}
      → j.items side ≡ some levels
      → 0 < length levels
      → length levels ≤ 20
      → read_levels levels ≡ some ls
      → Best side ls
  unfolding first_price first_quantity head_of
  levels-Best side [] found some_level few e = absurd (omega arith)
  levels-Best side (x ∷ xs) found some_level few e =
      let (l, parts, at, e₁, e₂) = first_level x xs e in
      let (fits, size) = read_levels-Fits (x ∷ xs) e in
      let (price, quantity) = level_of-numbers parts e₂ in
      (
        record { best = l; first = at; most = omega arith; bounds = fits },
        ground arith,
        ground arith,
      )

  read_side-Best : (side : J) {ls : List DepthLevel} → read_side side ≡ some ls → Best side ls
  unfolding read_side
  read_side-Best side {ls} e =
      let (levels, e₁, h) = >>=-eq-some (j.items side) _ e in
      levels-Best side levels e₁ (ground arith) (ground arith) (ground arith)

  same_number :
      (v : Option J) {t : Text} {n m : Parsed}
      → (v >>= number) ≡ some n
      → (v >>= j.characters) ≡ some t
      → decimal t ≡ some m
      → m ≡ n
  unfolding number
  same_number none hn ht hm = ground arith
  same_number (some x) hn ht hm = ground arith

  pair_of-Aligned :
      (bid ask : Option J) {b a : Parsed} {p : Pair}
      → (bid >>= number) ≡ some b
      → (ask >>= number) ≡ some a
      → pair_of bid ask ≡ some p
      → Aligned b a p
  unfolding pair_of
  pair_of-Aligned bid ask {b} {a} {p} eb ea e =
      let (bt, e₁, h₁) = >>=-eq-some (bid >>= j.characters) _ e in
      let (at, e₂, h₂) = >>=-eq-some (ask >>= j.characters) _ h₁ in
      let (b', a', d₁, d₂, rb, ra, _, small) = decimal_pair_exact bt at {p = p} h₂ in
      (
        subst (λ v. Rescaled v p.scale p.bid_value) (same_number bid eb e₁ d₁) rb,
        subst (λ v. Rescaled v p.scale p.ask_value) (same_number ask ea e₂ d₂) ra,
        small,
      )

  decode_data-Decoded :
      (symbol : Text) (data_value : J) (received : ℤ) {d : Depth}
      → decode_data symbol data_value received ≡ some d
      → Decoded d × (d.symbol ≡ symbol) × (d.received_time_us ≡ received)
  unfolding decode_data
  decode_data-Decoded symbol data_value received {d} e =
      let (z, e₁, h₁) = >>=-eq-some (j.field data_value "lastUpdateId" >>= j.whole) _ e in
      let (update, e₂, h₂) = >>=-eq-some (update_id z) _ h₁ in
      let (bid_side, e₃, h₃) = >>=-eq-some (j.field data_value "bids") _ h₂ in
      let (bids, e₄, h₄) = >>=-eq-some (read_side bid_side) _ h₃ in
      let (ask_side, e₅, h₅) = >>=-eq-some (j.field data_value "asks") _ h₄ in
      let (asks, e₆, h₆) = >>=-eq-some (read_side ask_side) _ h₅ in
      let (price, e₇, h₇) =
        >>=-eq-some (pair_of (first_price bid_side) (first_price ask_side)) _ h₆ in
      let (quantity, e₈, h₈) =
        >>=-eq-some (pair_of (first_quantity bid_side) (first_quantity ask_side)) _ h₇ in
      let (bid, bid_price, bid_quantity) = read_side-Best bid_side e₄ in
      let (ask, ask_price, ask_quantity) = read_side-Best ask_side e₆ in
      subst (λ b. Decoded b × (b.symbol ≡ symbol) × (b.received_time_us ≡ received))
        (some-injective _ _ h₈)
        (
          record {
            bids = bid;
            asks = ask;
            price =
                pair_of-Aligned (first_price bid_side) (first_price ask_side) bid_price ask_price
                  e₇;
            quantity =
                pair_of-Aligned (first_quantity bid_side) (first_quantity ask_side) bid_quantity
                  ask_quantity e₈;
            update = update_id-bound z e₂;
          },
          refl,
          refl,
        )

  -- A message that `decode_partial_depth` takes gives a book for the symbol of its stream, with the time
  -- of receipt that was passed, with one to twenty levels on each side whose numbers all fit the
  -- source's integers, and with an update id of at most 63 bits. The best prices are the prices of the
  -- first bid and the first ask without loss, at one exponent that fits an `std::int8_t`, and so are
  -- the best quantities.
  pub decode_partial_depth-Decoded :
      (message : J) (received : ℤ) {d : Depth}
      → decode_partial_depth message received ≡ some d
      → Decoded d
        × (d.received_time_us ≡ received)
        × ((stream : Text) × ((j.field message "stream" >>= j.characters) ≡ some stream)
            × (symbol_of_stream stream ≡ some d.symbol))
  unfolding decode_partial_depth
  decode_partial_depth-Decoded message received {d} e =
      let (stream, e₁, h₁) = >>=-eq-some (j.field message "stream" >>= j.characters) _ e in
      let (symbol, e₂, h₂) = >>=-eq-some (symbol_of_stream stream) _ h₁ in
      let (data_value, e₃, h₃) = >>=-eq-some (j.field message "data") _ h₂ in
      let (decoded, named, timed) = decode_data-Decoded symbol data_value received h₃ in
      (decoded, timed, (stream, e₁, e₂ ∙ ap some (sym named)))

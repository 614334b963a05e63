-- ===== src/Startup/Runs.antt =====
-- From the start of `main` (src/main.cpp) into its loop: the rounds of `process`.
use mathlib.Core.Path.{subst}
use mathlib.Core.Option.{some-injective}
use single_exchange_triangul.Common.{
  ◌≡◌, sym, ap, ◌∙◌, String, Bool, true, Option, some, List, [], All, arith, >>=-eq-some,
}
use single_exchange_triangul.Decimal.{Arith, Wire, Widen, Text}
use single_exchange_triangul.Trading.{Config}
use single_exchange_triangul.Depth.{Message}
use single_exchange_triangul.Json.{Document, Parser}
use single_exchange_triangul.Receiver.{RawMessage}
use single_exchange_triangul.Arbitrage.{validate_arbitrage}
use single_exchange_triangul.Markets.{load_markets}
use single_exchange_triangul.Triangles.Indices.{Consistent}
use single_exchange_triangul.Books.{new_books, update_all}
use single_exchange_triangul.Books.Scan.{StrictOrder}
use single_exchange_triangul.Executor.Defs.{Setup}
use single_exchange_triangul.Executor.Cycle.{acceptable}
use single_exchange_triangul.Intake.{Parsing, Moment, Intake, Effect, process, new_intake}
use single_exchange_triangul.Intake.Reads.{opportunities}
use single_exchange_triangul.Intake.Rounds.{symbols_of}
use single_exchange_triangul.Intake.Run.{books_in, process_returns, opportunities-acceptable}
use single_exchange_triangul.Settings.{Fields, Settings, Amounts, Endpoints, load_config}
use single_exchange_triangul.Startup.Ranges.{if_some, load_config-Loaded}
use single_exchange_triangul.Startup.{
  Program, config_of, setup_of, make_executor, executor_of, start_program,
}

module _ (J E : Type 0) {D F : Type 0} ⦃j : Message J⦄ ⦃l : Fields J F⦄ ⦃f : Arith F⦄
    ⦃e : Document E⦄ ⦃p : Parser D⦄ ⦃a : Arith D⦄ ⦃w : Wire D⦄ ⦃c : Widen F D⦄ (file : Text → Text)
    (string_of : Text → String) (d : Amounts F) (ends : Endpoints) where
  -- An executor has the configuration that it is made with.
  make_executor-config :
      (opens : Bool) (s : Settings F) (config : Config F) (info : E) {x : Option (Setup D F)}
      {u : Setup D F}
      → make_executor opens s config info ≡ some x
      → x ≡ some u
      → u.config ≡ config
  unfolding make_executor setup_of
  make_executor-config opens s config info {x} {u} h same =
      let (ms, _, h₁) = >>=-eq-some (load_markets config info) _ h in
      let (passed, at) = if_some _ h₁ in ap (λ v. v.config) (sym (some-injective _ _ (at ∙ same)))

  -- The same of the executor that the mode asks for.
  executor_of-config :
      (opens : Bool) (s : Settings F) (config : Config F) (info : E) {x : Option (Setup D F)}
      {u : Setup D F}
      → executor_of opens s config info ≡ some x
      → x ≡ some u
      → u.config ≡ config
  unfolding executor_of
  executor_of-config opens s config info {x} {u} h same =
      ground (arith, h, same, make_executor-config opens s config info {x = x} {u = u})

  -- What the start has made.
  record Made (q : Program D F) : Type 0 where
    books : new_books q.config ≡ some q.books
    names : Consistent (symbols_of q.config)
    executor : (u : Setup D F) → q.executor ≡ some u → u.config ≡ q.config

  start_program-Made :
      (opens : Bool) (json : J) (info : E) {q : Program D F}
      → start_program J E file string_of d ends opens json info ≡ some q
      → Made q
  unfolding start_program config_of
  start_program-Made opens json info {q} h =
      let (s, loaded, h₁) = >>=-eq-some (load_config J file string_of d ends json) _ h in
      let (groups, found, h₂) = >>=-eq-some (validate_arbitrage (config_of s []) info) _ h₁ in
      let config = config_of s groups in
      let (b, made, h₃) = >>=-eq-some (new_books config) _ h₂ in
      let (x, run, h₄) = >>=-eq-some (executor_of opens s config info) _ h₃ in
      subst Made (some-injective _ _ h₄) (record {
        books = made;
        names = (load_config-Loaded J file string_of d ends json {s = s} loaded).names;
        executor = λ u same. executor_of-config opens s config info run same;
      })

  module _ ⦃r : Parsing J⦄ where
    -- Once the program has started, whatever messages its receiver queues, every round of `process`
    -- returns and keeps the books that were read from them, and every opportunity that is handed to
    -- the executor passes the executor's tests on it. The laws of `<` on numbers are assumed.
    pub program_runs :
        StrictOrder f
        → (opens : Bool) (json : J) (info : E) {q : Program D F}
        → start_program J E file string_of d ends opens json info ≡ some q
        → (ms : List (Moment × RawMessage))
        → (t : Intake F) × (es : List (Effect F)) × (process J string_of q.config.symbols ms
              (new_intake q.config q.books)
            ≡ some (t, es))
          × (update_all (books_in J string_of q.config.symbol_indices ms) q.books ≡ some t.books)
          × ((u : Setup D F)
              → q.executor ≡ some u
              → All (λ x. acceptable u x ≡ true) (opportunities es))
    program_runs laws opens json info {q} started ms =
        let made = start_program-Made opens json info {q = q} started in
        let (t, es, ran, kept, _, _, _) =
          process_returns J string_of q.config ms {b = q.books} made.books made.names in
        (
          t,
          es,
          ran,
          kept,
          λ u has.
              let same = sym (made.executor u has) in
              opportunities-acceptable J string_of u ms {b = q.books} {t = t} {es = es} laws
                (subst (λ g. new_books g ≡ some q.books) same made.books)
                (subst (λ g. Consistent (symbols_of g)) same made.names)
                (subst (λ g. process J string_of g.symbols ms (new_intake g q.books) ≡ some (t, es))
                  same ran),
        )

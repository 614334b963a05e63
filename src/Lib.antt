-- ===== src/Lib.antt =====
-- Verification of the Binance triangular arbitrage engine: a receiver thread that queues market data,
-- an order book manager that keeps the latest book of each symbol and scans for an edge, an executor
-- that turns an opportunity into orders, a paper gateway and a live gateway that fill them, and an
-- asynchronous logger. At the start, in main, load_config reads the configuration, and the groups and the
-- markets are taken from the exchange's description: validate_arbitrage gives the order books and the
-- executor their groups and paths, load_markets gives the executor and both gateways the filters.
--
-- The parts, each with the code that it models:
--   Common      tests, lists, integers and dictionaries that all parts use
--   Decimal     the two number types (cpp_dec_float_50 and long double) as an interface, decimal_text
--   Trading     the records that the parts hand to one another (include/triangular/orderbook.hpp,
--               include/triangular/execution/execution.hpp)
--   Prices      the decimal parser and its rescaling (src/orderbook.cpp); proofs in Reading and Value
--   Executor    ArbitrageExecutor (src/execution/execution.cpp): Defs has the members (Exec), what a
--               handler reads of the world (Env) and the helpers halt, fail_cycle, finish and send;
--               Sizing has valid, prepare_from_book and prepare_fast; Cycle has start, begin, preflight
--               and next_leg; Cleanup has clear_initial_position; Report has report and callback;
--               Machine has the events and step. The proofs are in Invariant, Safety, Halting, Filters
--               and Clearing.
--   Paper       PaperGateway (src/execution/paper_gateway.cpp); proofs in Orders and Wallet
--   Books       OrderBookManager (src/orderbook.cpp); proofs in Slots and Scan
--   Receiver    the queue between the threads of Receiver (src/receiver.cpp); proofs in Queue and Fifo
--   Intake      process and ingest of Receiver, from a message to the books and the opportunity; proofs in
--               Reads, Rounds, Edges and Run
--   Connection  the sessions of Receiver, their retries, start and stop; proofs in Live, Steady, Runs and
--               Stopped
--   Fetch       fetch_exchange_info (src/receiver.cpp), its target and the handlers of its request;
--               proofs in Target and Ends
--   Timestamps  TimestampStream (include/triangular/timestamp_stream.hpp); proofs in History and Windows
--   Logger      AsyncLogger (src/logger.cpp); proofs in Accounting and Order
--   Json        the JSON values that Binance, Arbitrage and Markets read, as an interface; Depth has
--               the one for Depth, Triangles, Intake and Settings, with texts by characters
--   Binance     BinanceGateway (src/execution/binance_gateway.cpp): the file itself has request,
--               signed_target and checked; Fills and Accounts have parse_order and apply_report; Orders
--               and Tasks have query_now, submit, query_order, cancel_order and refresh_balances;
--               Worker has the queue and its thread. The proofs are in Post, Verdict, Outcomes, Lost,
--               Counted, Revisions, Reports and Drain.
--   Redaction   safe_message of BinanceGateway; proofs in Search and Pieces
--   Arbitrage   validate_arbitrage (src/orderbook.cpp); proofs in Hops, Loops, Markets and Groups
--   Markets     load_markets (src/execution/execution.cpp); proofs in Slots and Loaded
--   Triangles   the groups of symbols in load_config (src/orderbook.cpp); proof in Indices
--   Depth       decode_partial_depth (src/orderbook.cpp); proof in Tops
--   Settings    load_config, but for the groups (src/orderbook.cpp); what it lets pass is in
--               Startup.Ranges
--   Startup     the start of main (src/main.cpp), from the configuration to the parts; proofs in Ranges
--               and Returns, and in Runs with the rounds of process behind it
--   Streams     stream_target, and the symbol that decode_partial_depth reads back (src/orderbook.cpp);
--               proof in Names
--   Samples     a small world of integers for the tests, which stand in the modules named Tests
--
-- How the code is modelled. Members are the fields of a record, a handler is a function from the old
-- record to the new one, and `none` is an exception that leaves the handler. The executor's log lists
-- what it does to the world, the last effect first. Counters of 64 bits wrap at 2 ^ 64, the order number
-- and the count of clean-up orders at 2 ^ 32. Loops are structural recursion, but for the loop of
-- redact, which runs on as many rounds as the message has characters and one more; Redaction.Pieces
-- shows that it ends within them. A lock's critical section, an atomic load or store of an index, a
-- write that returns or throws, and a task of the live gateway is each one step, and a run is any sequence
-- of steps. A request to the exchange passes through the stages of request, from the resolution of the
-- name to the end of the reply, and may break at each; whether the write had started is what the code
-- remembers of it. Texts are strings, but in Streams, Triangles, Depth, Fetch, Settings, Intake and
-- Redaction they are lists of characters.
--
-- What is assumed. The arithmetic of the number types, the wire form of a Decimal, the clocks, the
-- books and the balances are parameters. Where a theorem needs laws of the arithmetic it names them
-- (Signs, StrictOrder, Tame). Observers return normally and call no method of the executor; a
-- gateway's callback is asynchronous, as the comment at Gateway demands. A timer may fire after it was
-- canceled, so its event is allowed in every state. Steady times are not negative. Client ids are
-- modelled by their parts. What the exchange replies and where a connection breaks, the JSON parser
-- and the HMAC are parameters too. A live gateway that is destroyed
-- with tasks in its queue lives on until its thread has dropped the last of them, and then joins its
-- own thread: the model reports these tasks and stops short of that end.
--
-- What is not modelled: the JSON of rows, statistics and diagnostics, latency marks, times of writing
-- and state_name, which no decision reads; in receiver.cpp the sockets and TLS below the stages of a
-- session and of fetch_exchange_info, and the fingerprints for a TLS key log; in binance_gateway.cpp
-- the credential files, TLS and TCP below the stages of a request; in timestamp_stream.hpp drain_tx,
-- which a diagnosis reads, and the asynchronous forms, which call the same receive; tls_keylog.hpp, a
-- callback into OpenSSL; in main.cpp the event loop, the signals and the last report; the Python
-- tools, which analyse captures offline.
pub mod Common
pub mod Decimal
pub mod Trading
pub mod Samples
pub mod Markets
pub mod Triangles
pub mod Depth
pub mod Fetch
pub mod Settings
pub mod Startup
pub mod Intake
pub mod Redaction
pub mod Streams
pub mod Executor
pub mod Paper
pub mod Binance
pub mod Arbitrage
pub mod Books
pub mod Prices
pub mod Receiver
pub mod Connection
pub mod Timestamps
pub mod Json
pub mod Logger

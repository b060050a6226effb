-- ===== src/Lib.antt =====
-- A verification library for DecantFi, which quotes a swap of BLND for USDC or EURC at several
-- venues of the Stellar network, ranks the quotes by what is received, and executes the chosen one
-- from the browser.
--
-- The parts, and the files that model them:
--
-- * Core (core/): Amount models core/amount.ts, the exact conversion between decimal texts and
--   stroops; Types models core/sources/types.ts and core/assets.ts, the records that the sources
--   and the engine exchange; Rank models core/rank.ts; Executable models core/executable.ts; Eurc
--   models core/eurc.ts, the choice between a direct swap and two swaps through USDC; RpcSelect
--   models core/rpc-select.ts, the choice of an RPC endpoint; Prices models the pure parts of
--   core/prices.ts and core/gas.ts, Engine models core/engine.ts, Split models core/split.ts, and
--   Route models the pure part of core/soroban-route.ts.
-- * Broker (the execution by StellarBroker): Guard models core/sources/stellarbroker-guard.ts, the
--   validation of each transaction that the service streams; Tap models `makeGuardedTap` and Flow
--   models `executeSbMediatorSwap` of web/sb-mediator-flow.js, which funds an account, streams the
--   swap under the guard and returns the funds; Session, Attempts and Funds hold what is proved
--   of it.
-- * App (web/public): Choose models choose-exec.js and composite-leg2-dispatch.js; State is the
--   execution state of app.js (`execState`); Exec and its child modules model the handlers of
--   app.js that move it (Broker, Composite, Start, Confirm, Trustline) and the buttons that the
--   page offers (Buttons). The others hold what is proved: Landing, Readings, Arrival, Modal,
--   Restore, Resell, Shown.
-- * Collector (collector/): Rows models probes.ts and the rows that tick.ts stores for a probe,
--   Tick what its `runTick` merges, Scheduler the loop of scheduler.ts, Coherence the verdicts of
--   coherence.ts.
-- * Web (web/): RequestIp models request-ip.ts; Execute and its child modules model execute.ts:
--   Offers and Pick `pickExecutableVenue`, which quotes the venues again, tries to build the
--   transaction of the best one first and returns it with the review that the user sees; Legs the
--   split over several paths of Ultra Stellar (`parseUltraQuote`, `reconcileLegSends`,
--   `buildUltra`); Submit the guard on the operations of a signed transaction, its submission and
--   its status; Quotes and its child modules model quote-api.ts: Resim the re-simulation of quotes
--   against the chain (`makeReSimLeg`, `resimAquariusXbull`), Ladder what `liveQuote` shows of a
--   result, Live the whole of it from the sources to the page, Shapes its records, Names the names
--   of sources and routes (also of stats.ts); Limits models the limits on the requests of an
--   address, and Server and its child modules the rest of server.ts: the fields of a request and
--   their checks, Query the parameters of a URL, Routes the requests, the routes and the state,
--   Answers the cache and the responses, Serve `handle` (and the end of `manualRefresh` of
--   refresh.ts); Checked, Origin, Paths, Handlers and Guarded hold what is proved of it.
--
-- How they interact: the server checks a request and passes it on (Web.Server), a quote goes
-- through the engine, the re-simulation and the ladder, a build through the choice of a venue, a
-- signed transaction through the guard of its submission; the engine ranks the quotes of its
-- sources (Engine uses Rank), the comparison for EURC ranks each leg (Eurc uses Rank), the page
-- runs the row that its ladder shows (App.Choose), a row of StellarBroker or a second leg quoted
-- there goes to the flow (App.Exec.Broker reads the result of Broker.Flow), and the flow, once
-- its handler is installed on the socket, hands a frame to the SDK only through the tap and the
-- guard, also after the swap has settled, until it returns.
--
-- How the code is rendered. A `bigint` is an integer over the native natural numbers (Common.Int);
-- an array is a list, a missing value is `none`, a thrown error or an early return is a value of a
-- result type. JavaScript's `number` on fractions is the interface Common.Float with no law
-- assumed, so that the theorems hold whatever the rounding. What the network, the wallet, the
-- timers and the SDK answer is an argument of the model: a record of functions (`World`), with the
-- number of the poll as argument where the code polls. Handlers return the state they leave and the
-- list of what they did, in order. Decoded transactions (the Stellar SDK's operations) are data,
-- and where a decoder may throw the data says so.
--
-- Bounds and fuel: the polls take the numbers of rounds of the source (20 for a transaction, 10 for
-- a balance, 3 attempts to return the funds) and recurse on them; all else is structural recursion;
-- the scheduler's loop, which has no end of its own, is followed for a number of rounds. Printing a
-- number recurses on a fuel that exceeds the number itself, which a division by ten brings down,
-- and the round trip of amounts shows that it is enough.
--
-- Not modelled: what arrives for the mediator account after its flow has returned; the source
-- adapters' network calls and parsing (core/sources), the requests and the transaction builders
-- of web/execute.ts, which are calls of the venues' services and of the Stellar SDK (what they
-- answer or build is an argument), the access log, the statistics, the rest of the collector and
-- its database, the rendering of the page, and the vendored bundles in web/public (sb-mediator.js,
-- walletkit.js), of which only the calls appear, as answers. The JavaScript number
-- argument of `toStroops` and the texts of error messages are left out too.
pub mod Common
pub mod Core
pub mod Broker
pub mod App
pub mod Web
pub mod Collector

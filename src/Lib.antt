-- ===== src/Lib.antt =====
-- Verification of the services of TachyonFi, a perpetuals exchange on LitVM.
--
-- The parts modelled are two services that run beside the contracts, and the read path that answers
-- from what they store. The keeper (keeper/keeper.mjs) watches the contract for requests and
-- executes them. The quest indexer (quest-indexer/) records which
-- wallets took part: a forward index over new blocks, a backfill over old ones and a settler for
-- single wallets, all in one process that a scheduler shares out. What it records is read as proof
-- of absence, so its coverage must never claim a block that was not read. The read path
-- (frontend/api/quest/verify.js and frontend/api/_lib/) answers whether a wallet completed a quest: from the index where the
-- backfill and the forward index together cover the quest's sources, else by a scan of its own that
-- resumes from stored intervals.
--
-- The parts and their files:
--   Base                  the library names and lemmas that all share; Base/Effects has the calls
--                         of an outer world: a call takes the world's state, which is any type,
--                         and gives its answer or error and the next state. The chain, the
--                         database and the clock are such calls, and parameters of the model.
--   Keeper/Sweep          `planSweep` and `admits` of keeper/keeper.mjs.
--   Keeper/Reasons        the tests that the keeper makes on the text of a revert.
--   Keeper/WorkingSet     the keeper's state, `applyReconcile` and `scheduleMarket`.
--   Keeper/Market         `deferMarket`, and the guards and the end of `fireMarket`.
--   Keeper/Rpc            `isTransient` and `withRetry`, and keeper/lib/revert.mjs.
--   Keeper/Reconcile      `reconcile`, which reads a request and gives it to `applyReconcile`.
--   Keeper/Wire, Submit   `submitAndSettle`: the operations of the outer world and the account, and
--                         the nonce, the gas limit, the send with its one retry and the receipt.
--   Keeper/Queue          `execute` and `makeSerialQueue`, as a step relation.
--   Keeper/Trigger        `releaseTrigger`, `retainTrigger` and `processTrigger`.
--   Indexer/Walk          `walkDown` of quest-indexer/lib/walk.mjs.
--   Indexer/SweepDown     `sweepDown` of the same file.
--   Indexer/Sources       the descriptors of lib/definitions.mjs and lib/sources.mjs. Address,
--                         floor and wallet of a source are functions that the jobs take.
--   Indexer/Range, Run    `rangeFor` and `runIndexer` of lib/indexer.mjs; Run/Rows builds the rows.
--   Indexer/Scheduler     `runScheduler` of lib/scheduler.mjs.
--   Indexer/Backfill      `planBackfill`, `completionsFrom` and `runBackfill` of lib/backfill.mjs.
--   Indexer/BlockDay      `createBlockDayResolver` of lib/blockDay.mjs.
--   Indexer/SettlerPlan   `planWork` of lib/settler.mjs, and SETTLEABLE_QUESTS.
--   Indexer/Settler       `runSettler` and `settleOne` of the same file.
--   Quest/Sources         sources and their keys, and `verifySourceFloor`, of
--                         frontend/api/_lib/quest/scan.js.
--   Quest/Scan, Poll      `scanForEvent` of the same file: the walks, and the phases and verdict.
--   Quest/Freshness       `readFreshness` of frontend/api/_lib/quest/indexerState.js.
--   Quest/IndexProof      `unionCovers` and `resolve` of frontend/api/_lib/quest/indexProof.js.
--   Quest/Chain           the settings and `batchRead` of frontend/api/_lib/quest/chain.js.
--   Quest/Quests, Cache   the registry of quests and the cache, of quests.js and cache.js there.
--   Quest/Checks, Daily   the tiers of checks.js and the sources of dailySources.js there.
--   Quest/Verify          `resolveQuest` and what it calls, of frontend/api/quest/verify.js.
--   Quest/Setup           what the environment sets up, of frontend/api/quest/verify.js.
--   Quest/RateLimit       frontend/api/_lib/rateLimit.js.
--   Quest/Handler         the handler of frontend/api/quest/verify.js, and `clientKey` of
--                         frontend/api/_lib/request.js.
--   Quest/Cursor          the store of coverage, its driver in memory and `scanWithResume`, of
--                         frontend/api/_lib/quest/cursor.js.
--
-- The keeper's retries need no fuel: the loop counts the attempts that are left. What a request's
-- submission and its reads do is one sequence of calls; events of other ids between them are
-- not in the model; Keeper/Queue has the order in which submissions run.
--
-- Numbers are unbounded natural numbers: blocks, milliseconds and counters stay far under 2^53 in
-- the source. Where the source's `hi` can be -1 the model keeps `hi + 1`. A walk's loop takes
-- `from + 2` rounds of fuel and a sweep's `from + chunk + 2`: each round lowers the top, or halves
-- the span, and the theorems show that the fuel does not run out. A scan's walk takes one round more
-- than its limit of chunks, since each round uses a chunk. The scheduler's loop runs for a
-- given number of rounds, since the source's has no end.
--
-- A bisection over blocks gets its span as fuel, which each turn lowers. A quest is resolved to a
-- given depth of composites, and depth 2 is enough for the registry. The parts of a composite, which
-- the source resolves at once, are resolved in turn.
--
-- The keeper's times are in milliseconds of its own clock, and a request's in seconds of the
-- chain's, as in the source. A timer is the time it is set for. The fields of an entry that only
-- the log reads (`phase`, the stage times) are left out, and the text of a revert is the list of
-- its characters' codes, in ASCII.
--
-- Not modelled: console output; the database client, whose statements appear by what they promise
-- (Indexer/Run/Order, Indexer/Settler/Laws); the keeper's batched reads, its supervisor and
-- WebSocket; the chat assistant, the trading front end, the user
-- interface, the landing page and the contracts.
pub mod Base
pub mod Keeper
pub mod Indexer
pub mod Quest

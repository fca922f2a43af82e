-- ===== src/Lib.antt =====
-- token-price-proxy: a service that answers the prices of tokens from several sources, behind a
-- cache and a queue in Redis, a rate limiter and a throttler of coins that have no price.
--
-- A request passes the middleware of internal/module/price/middleware, which counts it in Redis by
-- its API key, and reaches the price service, internal/module/price/service/price_service.go.
-- That service puts the request into a queue in Redis, from which a worker takes batches and asks
-- the sources, or asks the sources at once; a price at one time is always asked at once. The
-- sources are asked in a fixed order, the ones that a coin names first. A coin for which none has
-- a price is reported to the throttler, internal/module/shared/coins_throttler.go, which holds it
-- back for a while.
--
-- What the files model:
--   Redis: the commands that the program uses, as their documentation describes them, on the keys
--     of one database (Commands); programs that send commands, and the server that carries them
--     out (Run), whose documented behaviour while it is up is a field of the record Server; Lua
--     scripts, which run in one step (Script).
--   Throttler: IsCoinsThrottled, GetAlertedKey and CoinsThrottle, with HasHistoricalPriceCache of
--     internal/module/shared/redis.go. A failing command is an error reply, and each is handled as
--     the code handles it. CoinChecker, an interface, is a parameter; CheckCoinExists of the
--     coin repository is what the program gives for it.
--   RateLimiter: Allow of internal/module/price/service/rate_limiter_service.go, with its script,
--     and RateLimitMiddleware. GetAppTokenByToken is a parameter. The rate, a floating point
--     number that is compared with a count, is the least natural number that is not below it.
--   PriceService.Fetch: FetchAndProcessBatchPrices: the ids and the sets of ids for each source
--     (Plan), the closure batchQuery and its calls (Query), the rows that are returned (Finish).
--     An index out of range, which panics, is the result `none`. The repository of the coins, the
--     sources, the throttler, the log of notifications and the order in which Go ranges over a map
--     are the fields of the record Services, over any type of worlds.
--   PriceService.Queue: the scripts of EnqueueUniqueRequest, EnqueueUniqueRequests and
--     ProcessPriceRequests, the cut into batches, and the texts that are queued and published.
--   PriceService.Waiting: the callers of GetPrice and GetBatchPrice that wait: their registration in
--     keysRequestIDMap, requestIDKeysMap and requestIDChannelMap, processMessage, and the steps
--     that these take (Reachable), one at a time. A channel is the number of texts in its buffer,
--     and a send that would block is the result `none`.
--   PriceService.Cached: a worker of ProcessPriceRequests on its batch, which stores and publishes
--     its results, WaitForResult and WaitForBatchResults. The query of the sources is a parameter
--     of the worker.
--   PriceService.Prices: GetPrice and GetBatchPrice, over the record Calls of what they call, with the
--     three maps of Waiting in the world. A panic of these calls is the result `none`. The
--     select between the text on the channel and the time-out is one of these calls.
--   PriceService.Historical: GetHistoricalPrice, over the record History of what it calls.
--   PriceService.Dated: GetBatchHistoricalPrice, over the record DatedServices of what it calls.
--   RedisClient: the locks, the caches of prices and the deletion of keys by their prefix of
--     internal/module/shared/redis.go. The iteration over SCAN is a parameter.
--   CoinRepository: internal/module/price/repository/coins_repository.go: the statement of
--     upsertCoins (Upsert), the reads through the cache, with rows that stand for others (Reads, and
--     what they mean, Aliases), cacheCoinBatch (Caching), the methods that write to the database
--     (Writes), and the queue of rows with its lock and its retries (Queue). The database is the
--     record Database over states of its own, encoding/json the record Coder.
--   HistoryRepository: internal/module/price/repository/coin_historical_price_repository.go in the
--     same way: SaveHistoricalPrices and the processing of its queue, and GetHistoricalPrices
--     (Reads).
--   GeckoTerminal: internal/module/price/service/gecko_terminal_service.go. GetCurrentPrice over the
--     record Terminal of what it calls, GetBatchCurrentPrices (Batches), processPoolData with
--     getOhlcvs (Pools; Candles says what price it gives), processTokenData (History),
--     GetHistoricalPrice (History.Days) and GetBatchHistoricalPrices (History.Batch). A body is a
--     value of Json. Origins says where a current price can come from.
--   Env: LoadEnv of internal/module/shared/env.go with its loadings, and GetChainID, GetChainName
--     and GetUSDTAddress. What reads the environment and JSON is the record Reading.
--
-- Every loop is a recursion on the list or the count that the code runs through, and takes no
-- fuel, but for two. GetCoinsByOneID calls itself along the rows that stand for others, without a
-- bound: its fuel is the number of rounds, and CoinRepository.Aliases.Served says how many are
-- enough, and when none are. The loop over slices of a list (Prelude.Chunks) takes the length of
-- the list, which is enough since each slice has an element. Log lines are left out: nothing depends
-- on them. The time that a row of the log carries is the concern of the record's save_log.
--
-- Not modelled: the HTTP clients of the other sources, the repositories of the tokens, of the
-- request logs and of the notifications, the connection to Redis, the sending of notifications, the
-- scheduler, the configuration files, the controllers and the start-up.
pub mod Prelude
pub mod Redis
pub mod Throttler
pub mod RateLimiter
pub mod PriceService
pub mod RedisClient
pub mod CoinRepository
pub mod HistoryRepository
pub mod Json
pub mod GeckoTerminal
pub mod Env

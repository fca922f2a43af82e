-- ===== src/CoinRepository/World.antt =====
-- What the repositories call, besides Redis: the database, through gorm. An error is its text.
use token_price_proxy.Prelude.{ℕ, String, Option, List}
use token_price_proxy.Redis.Run.{Server, Prog, run}
use token_price_proxy.CoinRepository.{Coins}
use token_price_proxy.CoinRepository.Upsert.{Statement}
use token_price_proxy.CoinRepository.Caching.{Ended, returned, panicked, unending}

-- `none` is nil.
abbrev pub Error : Type 0
Error = Option String

-- CoinHistoricalPrice of internal/database/schema, without its Base.
pub record HistoricalPrice : Type 0 where
  pub coin_id : String
  pub date : ℕ
  pub day_date : String
  pub price : String
  pub source : String
  pub query_info : Option String

-- The database: transactions, of which one is open at a time, statements, and the queries.
pub record Database : Type 1 where
  pub State : Type 0
  pub begin : State → State
  pub exec : Statement → State → Error × State
  pub commit : State → Error × State
  pub rollback : State → State
  pub exec_text : String → State → Error × State
  pub delete_coin : String → State → Error × State
  pub coins_in : List String → State → (Error × List Coins) × State
  pub create_price : HistoricalPrice → State → Error × State
  pub prices_at : String → String → State → (Error × List HistoricalPrice) × State
  pub all_coins : State → (Error × List Coins) × State

module _ (r : Server) (db : Database) where
  abbrev pub World : Type 0
  World = r.State × db.State

  abbrev pub Action : Type 0 → Type 0
  Action A = World → Ended A × World

  abbrev pub after : {A B : Type 0} → Ended A × World → (A → Action B) → Ended B × World
  after (returned a, w) f = f a w
  after (panicked, w) f = (panicked, w)
  after (unending, w) f = (unending, w)

  abbrev pub bind : {A B : Type 0} → Action A → (A → Action B) → Action B
  bind m f w = after (m w) f

  abbrev pub give : {A : Type 0} → A → Action A
  give a w = (returned a, w)

  -- A program over Redis commands.
  abbrev pub on_redis : {A : Type 0} → Prog A → Action A
  on_redis p (s, d) = let (a, s') = run r p s in (returned a, (s', d))

  -- Such a program that may itself not return.
  abbrev pub on_redis_ended : {A : Type 0} → Prog (Ended A) → Action A
  on_redis_ended p (s, d) = let (a, s') = run r p s in (a, (s', d))

  abbrev pub on_database : {A : Type 0} → (db.State → A × db.State) → Action A
  on_database f (s, d) = let (a, d') = f d in (returned a, (s, d'))

  abbrev pub on_database_only : (db.State → db.State) → Action (Unit {0})
  on_database_only f (s, d) = (returned tt, (s, f d))

-- ===== src/GeckoTerminal/History/Tests.antt =====
-- The historical prices of GeckoTerminal at concrete answers.
use token_price_proxy.Prelude.{
  ℕ, ◌≡◌, refl, ◌+◌, String, none, some, List, [], ◌∷◌, if◌then◌else◌, ltb,
}
use token_price_proxy.Prelude.Maps.{lookup}
use token_price_proxy.CoinRepository.{ℤ.pos}
use token_price_proxy.PriceService.{Batch, Result.ok}
use token_price_proxy.GeckoTerminal.{Terminal, Parsed.unreadable, Response.failed}
use token_price_proxy.GeckoTerminal.History.{Archive}
use token_price_proxy.GeckoTerminal.History.Days.{
  price_of_day, token_answered, terminal_historical_price,
}
use token_price_proxy.GeckoTerminal.History.Batch.{
  historical_result, historical_results, get_batch_historical_prices,
}

-- A current price is cached; requests fail, and days are the texts of two times.
abbrev offline : Terminal ℕ ℕ
offline = record {
  cached_current = λ id w. (some "7", w);
  limit = λ network w. (none, w);
  count_attempt = λ network w. w + 1;
  request = λ url w. (failed "offline", w);
  note_failure = λ name text w. w;
  parse = λ body. unreadable "no JSON";
  set_current = λ id price w. w;
  coin_by_id = λ id w. ((none, none), w);
  upsert_coin = λ c w. (none, w);
  save_prices = λ rows w. (none, w);
  now = λ w. 9;
  day_of = λ s. if ltb s 5 then "past" else "today";
  show = λ n. "9";
  parse_float = λ s. none;
  below = ltb;
  whole = λ x. pos x;
  seconds = λ x. x;
  print_float = λ x. "1";
  total_reserve_threshold = 1000;
  price_usd_threshold = 100000;
  partner_key = "k";
}

abbrev empty_archive : Archive ℕ ℕ
empty_archive = record {
  terminal = offline;
  stored_prices = λ ids times w. ((none, []), w);
  get_text = λ key w. (none, w);
  set_text = λ key text w. w;
  parse_cached = λ text. none;
  print = λ j. "";
  set_historical = λ id date price w. w + 100;
  to_lower = λ s. s;
}

abbrev nothing_stored : List (String × String)
nothing_stored = []

abbrev one_token : Batch
one_token = record { addresses = "a" ∷ []; chain_ids = "1" ∷ []; symbols = []; networks = [] }

-- A request that fails: the price of the row is the empty text.
failed_row :
    get_batch_historical_prices empty_archive one_token (1 ∷ []) 0
    ≡ some (ok (historical_result empty_archive one_token 0 "1" "a" 1 (some "") ∷ []), 0)
unfolding get_batch_historical_prices historical_results terminal_historical_price price_of_day
    token_answered lookup
failed_row = refl

-- ===== src/PriceService/Cached/Tests.antt =====
-- Concrete runs on stored results.
use token_price_proxy.Prelude.{
  ◌≡◌, refl, String, true, none, some, Option, List, [], ◌∷◌, map, ◌==◌, if◌then◌else◌,
}
use token_price_proxy.Prelude.Panic.{Sure}
use token_price_proxy.Prelude.Text.{split}
use token_price_proxy.Redis.Commands.{Keyspace, word, put}
use token_price_proxy.Redis.Run.{Prog, done, run, ideal}
use token_price_proxy.PriceService.{PriceResult, Result, ok}
use token_price_proxy.PriceService.Queue.Messages.{Request, read_batch, parse_request}
use token_price_proxy.PriceService.Cached.{wait_for_result, store_result, store_results, worker}
use token_price_proxy.PriceService.Cached.Reads.{stored-read}
use token_price_proxy.PriceService.Cached.Batch.{
  Wanted, Slot, slots, wait_for_batch_results, AreRows, batch-rows,
}
use token_price_proxy.PriceService.Cached.Announces.{messages_of, worker-announces}

abbrev empty : Keyspace
empty = λ _. none

abbrev row : PriceResult
row = record {
  chain_id = "1";
  address = "0xa";
  price = some "2.5";
  symbol = none;
  network = none;
  time_stamp = "0";
  request_status = none;
  serial = 0;
}

stored-read_example :
    ((run ideal (store_result row "k") empty).0 ≡ "price_result:1_0xa|k" ∷ [])
    × ((run ideal
          (wait_for_result "1" "0xa")
          (ideal.wait 299999 (run ideal (store_result row "k") empty).1)).0
        ≡ (some "2.5", true))
stored-read_example = stored-read ideal row "k" 299999 empty refl

abbrev answering : List Request → Prog (Result (List PriceResult))
answering requests = done (ok (map (λ q. record row { address = q.address }) requests))

abbrev two_requests : List String
two_requests = "k|1|0xa|A|" ∷ "not a request" ∷ "j|1|0xb|B|" ∷ []

published :
    (run ideal (worker answering two_requests) empty).0
    ≡ some ("price_result:1_0xa|k" ∷ "price_result:1_0xb|j" ∷ [])
unfolding run worker read_batch parse_request store_results store_result split
published = refl

worker-announces_example :
    (run ideal (worker answering two_requests) empty).0
    ≡ some (
        messages_of
          (run ideal (answering (read_batch two_requests)) empty).0
          (map (λ q. q.request_key) (read_batch two_requests)))
unfolding read_batch parse_request split run
worker-announces_example = worker-announces ideal answering two_requests empty refl refl

abbrev wanted : Wanted
wanted = record { symbols = []; networks = []; now = "1700000000" }

abbrev batch : List Slot
batch =
    record { chain_id = "1"; address = "0xA"; key = "price_result:1_0xa"; entry = none }
    ∷ record {
      chain_id = "56";
      address = "0xB";
      key = "price_result:56_0xb";
      entry = some (some "3");
    }
    ∷ record { chain_id = "1"; address = "0xC"; key = "price_result:1_0xc"; entry = none }
    ∷ []

abbrev lowered : String → String
lowered a = if a == "0xA" then "0xa" else if a == "0xB" then "0xb" else "0xc"

abbrev three_chains : List String
three_chains = "1" ∷ "56" ∷ "1" ∷ []

abbrev three_addresses : List String
three_addresses = "0xA" ∷ "0xB" ∷ "0xC" ∷ []

abbrev three_entries : List (Option (Option String))
three_entries = none ∷ some (some "3") ∷ none ∷ []

batch_slots : slots lowered three_chains three_addresses three_entries ≡ some batch
unfolding slots
batch_slots = refl

abbrev one_stored : Keyspace
one_stored = put "price_result:1_0xa" (some (record { value = word "2.5"; ttl = some 1000 })) empty

batch-rows_example :
    Sure
      (λ batch.
        (rs : List PriceResult) × ((run ideal (wait_for_batch_results wanted batch) one_stored).0
          ≡ ok rs)
        × AreRows lowered wanted one_stored 0 three_chains three_addresses three_entries rs)
      (slots lowered three_chains three_addresses three_entries)
batch-rows_example =
    batch-rows ideal lowered wanted three_chains three_addresses three_entries one_stored refl refl
      refl (("2.5", refl), (_, (_, _)))

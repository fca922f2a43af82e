-- ===== src/PriceService/Queue/Tests.antt =====
-- Concrete runs of the queue.
use token_price_proxy.Prelude.{
  ◌<◌, ◌≤◌, ◌≡◌, refl, String, none, some, List, [], ◌∷◌, ◌++◌, All, length, arith,
}
use token_price_proxy.Prelude.Maps.{contains, add, delete}
use token_price_proxy.Prelude.Text.{split}
use token_price_proxy.Redis.Commands.{Keyspace, ok}
use token_price_proxy.Redis.Run.{run, ideal}
use token_price_proxy.PriceService.Queue.Scripts.{
  request_key, enqueue_script, enqueue_all_script, enqueue_unique_requests, forget, clear,
  drain_script,
}
use token_price_proxy.PriceService.Queue.Spec.{Requests, infos}
use token_price_proxy.PriceService.Queue.Refines.{IsQueue, enqueue-refines, drain-refines}
use token_price_proxy.PriceService.Queue.History.{
  Step, enqueue, drain, KeyedStep, history, history-fifo,
}
use token_price_proxy.PriceService.Queue.Batches.{slices, batches, concat, concat-batches}
use token_price_proxy.PriceService.Queue.Messages.{
  request_info, parse_request, notify_message, message_key, request-roundtrip, message-roundtrip,
}

abbrev set_key : String
set_key = "unique_price_requests"

abbrev queue_key : String
queue_key = "price_requests_queue"

abbrev empty : Keyspace
empty = λ _. none

abbrev first : String
first = "k|1|0xa|A|"

abbrev second_request : String
second_request = "j|56|0xb|B|"

abbrev steps : List Step
steps =
    enqueue "k" first
    ∷ enqueue "j" second_request
    ∷ enqueue "k" first
    ∷ drain 1
    ∷ enqueue "k" first
    ∷ drain 9
    ∷ []

keyed : All KeyedStep steps
unfolding request_key split
keyed = (refl, (refl, (refl, (_, (refl, (_, _))))))

run_history : (history set_key queue_key steps empty).0 ≡ first ∷ second_request ∷ first ∷ []
unfolding history enqueue_script drain_script clear forget request_key split contains add delete
run_history = refl

history-fifo_example :
    (left : Requests) × ((history set_key queue_key steps empty).0 ++ infos left
      ≡ first ∷ second_request ∷ first ∷ [])
    × IsQueue set_key queue_key left (history set_key queue_key steps empty).1
unfolding contains
history-fifo_example = history-fifo set_key queue_key refl steps [] empty (refl, refl, _, _) keyed

enqueue-refines_example :
    ((enqueue_script set_key queue_key "k" first empty).0 ≡ ok 1)
    × IsQueue set_key queue_key
        (("k", first) ∷ [])
        (enqueue_script set_key queue_key "k" first empty).1
unfolding contains
enqueue-refines_example =
    enqueue-refines set_key queue_key refl "k" first [] empty (refl, refl, _, _) keyed.0

abbrev one_waits : Keyspace
one_waits = (enqueue_script set_key queue_key "k" first empty).1

drain-refines_example :
    ((drain_script set_key queue_key 5 one_waits).0 ≡ ok (first ∷ []))
    × IsQueue set_key queue_key [] (drain_script set_key queue_key 5 one_waits).1
drain-refines_example =
    drain-refines set_key queue_key refl 5 (("k", first) ∷ []) one_waits enqueue-refines_example.1

-- Two enqueuers with the same key: the second adds nothing.
twice :
    (run ideal
      (enqueue_unique_requests set_key queue_key ("k" ∷ "k" ∷ []) (first ∷ first ∷ []))
      empty).0
    ≡ ok 1
unfolding run enqueue_unique_requests enqueue_all_script enqueue_script contains
twice = refl

abbrev three : List String
three = "a" ∷ "b" ∷ "c" ∷ []

cut_in_two : batches 2 three ≡ ("a" ∷ "b" ∷ []) ∷ ("c" ∷ []) ∷ []
unfolding slices
cut_in_two = refl

concat-batches_example :
    (concat (batches 2 three) ≡ three)
    × All (λ b. (0 < length b) × (length b ≤ 2)) (batches 2 three)
concat-batches_example = concat-batches 2 three (omega arith)

request-roundtrip_example :
    (parse_request (request_info "k" "1" "0xa" "A" "")
      ≡ some (record {
        request_key = "k";
        chain_id = "1";
        address = "0xa";
        symbol = "A";
        network = "";
      }))
    × (request_key (request_info "k" "1" "0xa" "A" "") ≡ some "k")
request-roundtrip_example = request-roundtrip "k" "1" "0xa" "A" "" refl refl refl refl refl refl

message-roundtrip_example : message_key (notify_message "price_result:1_0xa" "k") ≡ some "k"
message-roundtrip_example = message-roundtrip "price_result:1_0xa" "k" refl refl

-- ===== src/PriceService/Waiting/Tests.antt =====
-- Concrete runs of processMessage.
use token_price_proxy.Prelude.{◌≡◌, refl, String, false, none, some, List, [], ◌∷◌, arith}
use token_price_proxy.Prelude.Maps.{lookup, insert, erase, add, delete, contains}
use token_price_proxy.Prelude.Panic.{Sure}
use token_price_proxy.Prelude.Text.{split}
use token_price_proxy.PriceService.Queue.Messages.{notify_message, message_key}
use token_price_proxy.PriceService.Waiting.{
  Registry, wait_for, wait_for_all, register_batch, register_price, wake, wake_all, process_at,
  process_key, process_message,
}
use token_price_proxy.PriceService.Waiting.Wakes.{Woken}
use token_price_proxy.PriceService.Waiting.Linked.{Linked}
use token_price_proxy.PriceService.Waiting.Reachable.{
  no_callers, Reachable, Reachable-Linked, start, next, batch, price, message-wakes,
}

-- Two callers: the first waits for two keys, the second for one of them.
abbrev two_callers : Registry
two_callers = record {
  keys_request_ids = ("k", "a" ∷ "b" ∷ []) ∷ ("j", "a" ∷ []) ∷ [];
  request_id_keys = ("a", "j" ∷ "k" ∷ []) ∷ ("b", "k" ∷ []) ∷ [];
  channels = ("a", 0) ∷ ("b", 0) ∷ [];
}

two_callers-Reachable : Reachable two_callers
unfolding register_batch register_price wait_for_all wait_for lookup insert add contains
two_callers-Reachable =
    next {reg = register_batch "a" ("k" ∷ "j" ∷ []) no_callers}
      (next {reg = no_callers} start
        (batch "a" ("k" ∷ "j" ∷ []) (λ key ids e. ground (arith, e)) (refl, (refl, _)) refl))
      (price "b" "k" fresh_b refl)
  where
    fresh_b :
        (key : String) (ids : List String)
        → lookup key (("k", "a" ∷ []) ∷ ("j", "a" ∷ []) ∷ []) ≡ some ids
        → contains "b" ids ≡ false
    fresh_b key ids e = ground (arith, e)

-- The message of "k" answers the second caller, and the first waits on.
answered :
    process_message "price_result:1_0xa|k" two_callers
    ≡ some (record {
      keys_request_ids = ("j", "a" ∷ []) ∷ [];
      request_id_keys = ("a", "j" ∷ []) ∷ ("b", []) ∷ [];
      channels = ("a", 0) ∷ ("b", 1) ∷ [];
    })
unfolding process_message process_key process_at message_key wake_all wake lookup insert erase
    delete split
answered = refl

-- With one key twice, the second send finds the buffer full.
twice_blocks :
    process_message "price_result:1_0xa|k" (register_batch "a" ("k" ∷ "k" ∷ []) no_callers) ≡ none
unfolding process_message process_key process_at message_key wake_all wake register_batch
    wait_for_all wait_for lookup insert add erase delete split
twice_blocks = refl

k_message : message_key (notify_message "price_result:1_0xa" "k") ≡ some "k"
unfolding message_key split
k_message = refl

k_ids : lookup "k" two_callers.keys_request_ids ≡ some ("a" ∷ "b" ∷ [])
unfolding lookup
k_ids = refl

message-wakes_example :
    Sure
      (λ reg'.
        ((id : String) → Woken "k" (contains id ("a" ∷ "b" ∷ [])) id two_callers reg')
        × (lookup "k" reg'.keys_request_ids ≡ none))
      (process_message (notify_message "price_result:1_0xa" "k") two_callers)
message-wakes_example =
    message-wakes two_callers two_callers-Reachable (notify_message "price_result:1_0xa" "k") "k"
      ("a" ∷ "b" ∷ []) k_message k_ids

Reachable-Linked_example : Linked two_callers
Reachable-Linked_example = Reachable-Linked two_callers two_callers-Reachable

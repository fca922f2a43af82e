-- ===== src/PriceService/Waiting.antt =====
-- The callers of GetPrice and GetBatchPrice that wait for queued requests: the three maps of the
-- price service, the registration of a caller, and processMessage.
pub mod Wakes
pub mod Linked
pub mod Register
pub mod Reachable
mod Tests
use token_price_proxy.Prelude.{ℕ, zero, suc, String, Option, none, some, List, [], ◌∷◌, ◌++◌}
use token_price_proxy.Prelude.Maps.{lookup, insert, erase, add, delete}
use token_price_proxy.Prelude.Panic.{◌>>=◌}
use token_price_proxy.PriceService.Queue.Messages.{message_key}

-- keysRequestIDMap, requestIDKeysMap and requestIDChannelMap. A channel is the number of the
-- texts in its buffer, which holds one.
pub record Registry : Type 0 where
  pub keys_request_ids : List (String × List String)
  pub request_id_keys : List (String × List String)
  pub channels : List (String × ℕ)

abbrev pub ids_of : Option (List String) → List String
ids_of none = []
ids_of (some ids) = ids

-- The id is added to those that wait for a key, in a slice that is there or a new one.
unfoldable pub wait_for : String → String → Registry → Registry
wait_for id key reg = record reg {
  keys_request_ids =
      insert key (ids_of (lookup key reg.keys_request_ids) ++ id ∷ []) reg.keys_request_ids;
}

unfoldable pub wait_for_all : String → List String → Registry → Registry
wait_for_all id [] reg = reg
wait_for_all id (key ∷ keys) reg = wait_for_all id keys (wait_for id key reg)

abbrev pub key_set : List String → List String
key_set [] = []
key_set (key ∷ keys) = add key (key_set keys)

-- requestIDChannelMap.Store with a new channel.
abbrev pub open_channel : String → Registry → Registry
open_channel id reg = record reg { channels = insert id 0 reg.channels }

-- The registration of a batch for the keys that are not cached.
abbrev pub register_keys : String → List String → Registry → Registry
register_keys id keys reg =
    let waiting = wait_for_all id keys reg in
    record waiting { request_id_keys = insert id (key_set keys) waiting.request_id_keys }

unfoldable pub register_batch : String → List String → Registry → Registry
register_batch id keys reg = register_keys id keys (open_channel id reg)

-- The registration in GetPrice.
unfoldable pub register_price : String → String → Registry → Registry
register_price id key reg = wait_for id key (record reg {
  channels = insert id 0 reg.channels;
  request_id_keys = insert id (key ∷ []) reg.request_id_keys;
})

-- The deferred function of both.
unfoldable pub leave : String → Registry → Registry
leave id reg = record reg {
  channels = erase id reg.channels;
  request_id_keys = erase id reg.request_id_keys;
}

-- `channel <- "ok"`; `none` if the buffer is full, where the sender blocks.
abbrev pub send_at : Option ℕ → String → Registry → Option Registry
send_at none id reg = some reg
send_at (some zero) id reg = some (record reg { channels = insert id 1 reg.channels })
send_at (some (suc n)) id reg = none

abbrev pub notify : List String → String → Registry → Option Registry
notify [] id reg = send_at (lookup id reg.channels) id reg
notify (key ∷ keys) id reg = some reg

abbrev pub wake_at : Option (List String) → String → String → Registry → Option Registry
wake_at none key id reg = some reg
wake_at (some keys) key id reg =
    notify (delete key keys) id
      (record reg { request_id_keys = insert id (delete key keys) reg.request_id_keys })

-- What processMessage does for one waiting id, under its lock.
unfoldable pub wake : String → String → Registry → Option Registry
wake key id reg = wake_at (lookup id reg.request_id_keys) key id reg

unfoldable pub wake_all : String → List String → Registry → Option Registry
wake_all key [] reg = some reg
wake_all key (id ∷ ids) reg = do reg' ← wake key id reg; wake_all key ids reg'

unfoldable pub process_at : Option (List String) → String → Registry → Option Registry
process_at none key reg = some reg
process_at (some ids) key reg = do
  reg' ← wake_all key ids reg
  some (record reg' { keys_request_ids = erase key reg'.keys_request_ids })

unfoldable pub process_key : Option String → Registry → Option Registry
unfolding process_at
process_key none reg = some reg
process_key (some key) reg = process_at (lookup key reg.keys_request_ids) key reg

-- processMessage
unfoldable pub process_message : String → Registry → Option Registry
unfolding process_key
process_message payload reg = process_key (message_key payload) reg

-- ===== src/PriceService/Queue/Messages.antt =====
-- The texts that the parts of price_service.go send each other: a queued request, and the message
-- on the channel of the results.
use text.Mathlib.TextLemmas.{cons-append, nil-append}
use token_price_proxy.Prelude.{
  ◌≡◌, refl, String, str_append, false, Option, none, some, List, [], ◌∷◌, ◌==◌, arith,
}
use token_price_proxy.Prelude.Text.{split, has_char, split-plain, split-append}
use token_price_proxy.PriceService.{join_id}
use token_price_proxy.PriceService.Queue.Scripts.{request_key}

abbrev pub bar : String → String → String
bar a b = str_append a (str_append "|" b)

-- fmt.Sprintf("%s|%s|%s|%s|%s", …) in GetPrice and GetBatchPrice.
abbrev pub request_info : String → String → String → String → String → String
request_info key chain_id address symbol network =
    bar key (bar chain_id (bar address (bar symbol network)))

-- The parts that a worker of ProcessPriceRequests reads.
pub record Request : Type 0 where
  pub request_key : String
  pub chain_id : String
  pub address : String
  pub symbol : String
  pub network : String

-- `len(parts) == 5`
abbrev request_of : List String → Option Request
request_of (key ∷ chain ∷ addr ∷ sym ∷ net ∷ []) =
    some
      (record { request_key = key; chain_id = chain; address = addr; symbol = sym; network = net })
request_of _ = none

unfoldable pub parse_request : String → Option Request
parse_request req = request_of (split b'|' req)

-- The requests of a batch in the right format; the others are only logged.
unfoldable pub read_batch : List String → List Request
read_batch [] = []
read_batch (req ∷ batch) =
    let rest = read_batch batch in elim (parse_request req) [ none ↦ rest | some r ↦ r ∷ rest ]

-- The key of a result, and the message of NotifyProducer.
abbrev pub result_key : String → String → String
result_key chain_id address = str_append "price_result:" (join_id chain_id address)

abbrev pub notify_message : String → String → String
notify_message result_key request_key = bar result_key request_key

-- The request key that processMessage reads: `parts[1]`, if len(parts) is 2.
abbrev key_of : List String → Option String
key_of (result ∷ key ∷ []) = some key
key_of _ = none

unfoldable pub message_key : String → Option String
message_key payload = key_of (split b'|' payload)

abbrev pub Plain : String → Type 0
Plain s = has_char b'|' s ≡ false

bar-split : (a b : String) → Plain a → split b'|' (bar a b) ≡ a ∷ split b'|' b
bar-split a b h = rw (cons-append "|" "" b) (rw (nil-append b) (split-append b'|' "|" a b refl h))

request-split :
    (key chain_id address symbol network : String)
    → Plain key
    → Plain chain_id
    → Plain address
    → Plain symbol
    → Plain network
    → split b'|' (request_info key chain_id address symbol network)
      ≡ key ∷ chain_id ∷ address ∷ symbol ∷ network ∷ []
request-split key chain_id address symbol network hk hc ha hs hn =
    rw
      (
        bar-split key _ hk,
        bar-split chain_id _ hc,
        bar-split address _ ha,
        bar-split symbol network hs,
        split-plain b'|' network hn,
      )
      refl

-- A request of parts without a bar, whose key is not empty, is read back part by part by the
-- worker, and the script that drains the queue finds its key in it.
pub request-roundtrip :
    (key chain_id address symbol network : String)
    → Plain key
    → Plain chain_id
    → Plain address
    → Plain symbol
    → Plain network
    → (key == "") ≡ false
    → (parse_request (request_info key chain_id address symbol network)
        ≡ some (record {
          request_key = key;
          chain_id = chain_id;
          address = address;
          symbol = symbol;
          network = network;
        }))
      × (request_key (request_info key chain_id address symbol network) ≡ some key)
unfolding parse_request request_key
request-roundtrip key chain_id address symbol network hk hc ha hs hn filled =
    rw (request-split key chain_id address symbol network hk hc ha hs hn)
      (refl, ground (arith, filled))

-- processMessage reads back the request key that NotifyProducer sends, if neither text of the
-- message has a bar.
pub message-roundtrip :
    (result_key request_key : String)
    → Plain result_key
    → Plain request_key
    → message_key (notify_message result_key request_key) ≡ some request_key
unfolding message_key
message-roundtrip result_key request_key hr hk =
    rw (bar-split result_key request_key hr, split-plain b'|' request_key hk) refl

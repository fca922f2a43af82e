-- ===== src/PriceService/Waiting/Reachable.antt =====
-- The registry as callers come and go and messages arrive, one of them at a time.
use token_price_proxy.Prelude.{
  ◌≡◌, refl, subst, sym, ◌∙◌, String, ◌==◌, none, some, List, [], inl, inr, Bool-cases,
  Option-cases, arith,
}
use mathlib.Core.Option.{some-injective}
use token_price_proxy.Prelude.Maps.{lookup, insert, contains, lookup-insert}
use token_price_proxy.Prelude.Panic.{Sure, Sure-mono}
use token_price_proxy.PriceService.Queue.Messages.{message_key}
use token_price_proxy.PriceService.Queue.Spec.{Distinct}
use token_price_proxy.PriceService.Waiting.{
  Registry, register_batch, register_price, leave, process_at, process_key, process_message,
}
use token_price_proxy.PriceService.Waiting.Linked.{Linked, process-Linked}
use token_price_proxy.PriceService.Waiting.Register.{
  Fresh, register_batch-Linked, register_price-Linked, leave-Linked,
}
use token_price_proxy.PriceService.Waiting.Wakes.{Woken}

abbrev pub no_callers : Registry
no_callers = record { keys_request_ids = []; request_id_keys = []; channels = [] }

-- `<-resultChannel`
unfoldable pub receive_text : String → Registry → Registry
receive_text id reg = record reg { channels = insert id 0 reg.channels }

pub data Step (reg reg' : Registry) : Type 0 where
  batch :
      (id : String) (keys : List String)
      → Fresh id reg
      → Distinct keys
      → reg' ≡ register_batch id keys reg
      → Step reg reg'
  price : (id key : String) → Fresh id reg → reg' ≡ register_price id key reg → Step reg reg'
  text_taken :
      (id : String) → lookup id reg.channels ≡ some 1 → reg' ≡ receive_text id reg → Step reg reg'
  left : (id : String) → reg' ≡ leave id reg → Step reg reg'
  message : (payload : String) → process_message payload reg ≡ some reg' → Step reg reg'

pub data Reachable : Registry → Type 0 where
  start : Reachable no_callers
  next : {reg reg' : Registry} → Reachable reg → Step reg reg' → Reachable reg'

no_callers-Linked : Linked no_callers
unfolding lookup
no_callers-Linked = record {
  waits = λ key ids e. ground (arith, e);
  quiet = λ id keys e h. ground (arith, e);
}

receive_text-Linked : (id : String) (reg : Registry) → Linked reg → Linked (receive_text id reg)
unfolding receive_text
receive_text-Linked id reg l = record {
  waits = l.waits;
  quiet = λ j keys e h. elim (Bool-cases (j == id)) [
    | inl b ↦ inr (ground (arith, b, lookup-insert id j 0 reg.channels))
    | inr b ↦
        let same : lookup j (insert id 0 reg.channels) ≡ lookup j reg.channels =
          ground (arith, b, lookup-insert id j 0 reg.channels) in
        rw same (l.quiet j keys e h)
  ];
}

-- A message that no one waits for changes nothing.
process-total :
    (payload : String) (reg : Registry) → Linked reg → Sure Linked (process_message payload reg)
unfolding process_message process_key process_at
process-total payload reg l = elim (Option-cases (message_key payload)) [
  | inl m ↦ rw m (reg, refl, l)
  | inr (key, m) ↦ elim (Option-cases (lookup key reg.keys_request_ids)) [
    | inl e ↦ rw (m, e) (reg, refl, l)
    | inr (ids, e) ↦
        Sure-mono _ _ (process_message payload reg) (process-Linked payload key ids reg l m e)
          (λ reg' h. h.0)
  ]
]

step-Linked : {reg reg' : Registry} → Step reg reg' → Linked reg → Linked reg'
step-Linked (batch id keys f d e) l = subst Linked (sym e) (register_batch-Linked id keys _ l f d)
step-Linked (price id key f e) l = subst Linked (sym e) (register_price-Linked id key _ l f)
step-Linked (text_taken id c e) l = subst Linked (sym e) (receive_text-Linked id _ l)
step-Linked (left id e) l = subst Linked (sym e) (leave-Linked id _ l)
step-Linked (message payload e) l =
    let (reg'', e', l') = process-total payload _ l in
    subst Linked (some-injective _ _ (sym e' ∙ e)) l'

-- In every registry that callers of fresh ids and distinct keys, texts that are taken, callers
-- that leave and messages lead to: an id stands at most once under a key, an id that stands under
-- a key waits for it unless its caller has left, and the channel of an id that still waits for a
-- key is empty or gone.
pub Reachable-Linked : (reg : Registry) → Reachable reg → Linked reg
Reachable-Linked reg start = no_callers-Linked
Reachable-Linked reg (next {reg = before} r step) = step-Linked step (Reachable-Linked before r)

-- In every registry that callers of fresh ids and distinct keys, texts that are taken, callers
-- that leave and messages lead to, a message with a key that ids wait for does not block. It takes
-- the key from each of them, puts a text on the channel of exactly those that wait for no other
-- key, changes nothing for other ids, and leaves none registered under the key.
pub message-wakes :
    (reg : Registry)
    → Reachable reg
    → (payload key : String) (ids : List String) → message_key payload ≡ some key
    → lookup key reg.keys_request_ids ≡ some ids
    → Sure
        (λ reg'.
          ((id : String) → Woken key (contains id ids) id reg reg')
          × (lookup key reg'.keys_request_ids ≡ none))
        (process_message payload reg)
message-wakes reg r payload key ids m e =
    Sure-mono _ _ (process_message payload reg)
      (process-Linked payload key ids reg (Reachable-Linked reg r) m e) (λ reg' h. (h.1, h.2))

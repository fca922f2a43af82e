-- ===== src/PriceService/Waiting/Linked.antt =====
-- The invariant of the three maps, and what processMessage does under it.
use token_price_proxy.Prelude.{
  ◌≡◌, refl, ap, sym, ◌∙◌, String, Bool, true, false, ◌==◌, none, some, List, [], ◌∷◌, ◌⊎◌, inl,
  inr, All, Option-cases, eq_iff, eq_refl, arith,
}
use token_price_proxy.Prelude.Maps.{lookup, erase, delete, contains, lookup-erase, contains-delete}
use token_price_proxy.Prelude.Panic.{Sure, Sure->>=}
use token_price_proxy.PriceService.Queue.Messages.{message_key}
use token_price_proxy.PriceService.Queue.Spec.{Distinct}
use token_price_proxy.PriceService.Waiting.{Registry, process_at, process_key, process_message}
use token_price_proxy.PriceService.Waiting.Wakes.{is_empty, Woken, Free, wake_all-Sure}

-- The id waits for the key, if it waits for anything.
abbrev pub Waits : String → Registry → String → Type 0
Waits key reg id =
    (keys : List String) → lookup id reg.request_id_keys ≡ some keys → contains key keys ≡ true

-- Each id stands once under each of its keys, and the channel of an id that waits is empty.
pub record Linked (reg : Registry) : Type 0 where
  pub waits :
      (key : String) (ids : List String)
      → lookup key reg.keys_request_ids ≡ some ids
      → Distinct ids × All (Waits key reg) ids
  pub quiet :
      (id : String) (keys : List String)
      → lookup id reg.request_id_keys ≡ some keys
      → is_empty keys ≡ false
      → (lookup id reg.channels ≡ none) ⊎ (lookup id reg.channels ≡ some 0)

not_empty : (key : String) (keys : List String) → contains key keys ≡ true → is_empty keys ≡ false
unfolding contains
not_empty key [] h = ground (arith, h)
not_empty key (k ∷ keys) h = refl

Waits-Free :
    (key : String) (reg : Registry)
    → Linked reg
    → (id : String) → Waits key reg id
    → Free key reg id
Waits-Free key reg l id w last = elim (Option-cases (lookup id reg.request_id_keys)) [
  | inl e ↦ ground (arith, e, last)
  | inr (keys, e) ↦ l.quiet id keys e (not_empty key keys (w keys e))
]

All-Free :
    (key : String) (reg : Registry)
    → Linked reg
    → (ids : List String) → All (Waits key reg) ids
    → All (Free key reg) ids
All-Free key reg l [] h = _
All-Free key reg l (id ∷ ids) h = (Waits-Free key reg l id h.0, All-Free key reg l ids h.1)

-- A wait for another key goes on.
Waits-other :
    (key key' id : String) (among : Bool) (reg reg' : Registry)
    → Woken key among id reg reg'
    → (key' == key) ≡ false
    → Waits key' reg id
    → Waits key' reg' id
Waits-other key key' id among reg reg' w h waits keys e =
    elim (Option-cases (lookup id reg.request_id_keys)) [
      | inl n ↦ ground (arith, w.0, n, e)
      | inr (before, b) ↦ ground (
        arith,
        w.0,
        b,
        e,
        waits before b,
        contains-delete key key' before,
        eq_iff key key',
        eq_iff key' key,
      )
    ]

All-Waits-other :
    (key key' : String) (among : String → Bool) (reg reg' : Registry)
    → ((id : String) → Woken key (among id) id reg reg')
    → (key' == key) ≡ false
    → (ids : List String) → All (Waits key' reg) ids
    → All (Waits key' reg') ids
All-Waits-other key key' among reg reg' w h [] hs = _
All-Waits-other key key' among reg reg' w h (id ∷ ids) hs = (
  Waits-other key key' id (among id) reg reg' (w id) h hs.0,
  All-Waits-other key key' among reg reg' w h ids hs.1,
)

delete-empty :
    (key : String) (keys : List String) → is_empty (delete key keys) ≡ false → is_empty keys ≡ false
unfolding delete
delete-empty key [] h = h
delete-empty key (k ∷ keys) h = refl

quiet_after :
    (key id : String) (among : Bool) (reg reg' : Registry)
    → Linked reg
    → Woken key among id reg reg'
    → (keys : List String) → lookup id reg'.request_id_keys ≡ some keys
    → is_empty keys ≡ false
    → (lookup id reg'.channels ≡ none) ⊎ (lookup id reg'.channels ≡ some 0)
quiet_after key id among reg reg' l w keys e h =
    elim (Option-cases (lookup id reg.request_id_keys)) [
      | inl n ↦ ground (arith, w.0, n, e)
      | inr (before, b) ↦
          let full : is_empty before ≡ false =
            ground (arith, w.0, b, e, h, delete-empty key before) in
          let same : lookup id reg'.channels ≡ lookup id reg.channels =
            ground (arith, w.0, w.1, b, e, h) in
          rw same (l.quiet id before b full)
    ]

linked :
    (key : String) (ids : List String) (reg reg' : Registry)
    → Linked reg
    → ((id : String) → Woken key (contains id ids) id reg reg')
    → reg'.keys_request_ids ≡ reg.keys_request_ids
    → Linked (record reg' { keys_request_ids = erase key reg'.keys_request_ids })
linked key ids reg reg' l w same = record {
  waits = λ key' ids' e.
      let erased = lookup-erase key key' reg'.keys_request_ids in
      let other : (key' == key) ≡ false = ground (arith, erased, e) in
      let there : lookup key' reg.keys_request_ids ≡ some ids' =
        ap (λ (m : List (String × List String)). lookup key' m) (sym same)
        ∙ ground (arith, erased, e) in
      let (distinct, waits) = l.waits key' ids' there in
      (distinct, All-Waits-other key key' (λ id. contains id ids) reg reg' w other ids' waits);
  quiet = λ id keys e h. quiet_after key id (contains id ids) reg reg' l (w id) keys e h;
}

-- While the maps are linked, the message of a key that ids wait for blocks nowhere and keeps them
-- linked. Each of these ids waits for that key no longer; it gets its text on the channel exactly
-- if it waits for no other key; and nothing changes for other ids.
pub process-Linked :
    (payload key : String) (ids : List String) (reg : Registry)
    → Linked reg
    → message_key payload ≡ some key
    → lookup key reg.keys_request_ids ≡ some ids
    → Sure
        (λ reg'.
          Linked reg'
          × ((id : String) → Woken key (contains id ids) id reg reg')
          × (lookup key reg'.keys_request_ids ≡ none))
        (process_message payload reg)
unfolding process_message process_key process_at
process-Linked payload key ids reg l m e =
    let (distinct, waits) = l.waits key ids e in
    rw (m, e)
      (Sure->>= _ _ _ _ (wake_all-Sure key ids reg distinct (All-Free key reg l ids waits))
        (λ reg' h.
          let erased = λ (k : String). lookup-erase key k reg'.keys_request_ids in
          let none_left : lookup key (erase key reg'.keys_request_ids) ≡ none =
            ground (arith, erased key, eq_refl key) in
          let final : Registry = record reg' {
            keys_request_ids = erase key reg'.keys_request_ids;
          } in
          (final, refl, (linked key ids reg reg' l h.0 h.1, h.0, none_left))))

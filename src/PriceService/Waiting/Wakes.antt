-- ===== src/PriceService/Waiting/Wakes.antt =====
-- What a message does to the callers that wait: none blocks it, and each waits for one key less.
use token_price_proxy.Prelude.{
  ℕ, ◌≡◌, refl, ap, ◌∙◌, String, Bool, true, false, ◌&&◌, ◌==◌, Option, none, some, List, [], ◌∷◌,
  ◌⊎◌, inl, inr, All, Bool-cases, Option-cases, if◌then◌else◌, eq_iff, arith,
}
use token_price_proxy.Prelude.Maps.{lookup, insert, delete, contains, lookup-insert}
use token_price_proxy.Prelude.Panic.{Sure, Sure->>=, Sure-mono}
use token_price_proxy.PriceService.Queue.Spec.{Distinct}
use token_price_proxy.PriceService.Waiting.{Registry, wake, wake_all}

abbrev pub is_empty : List String → Bool
is_empty [] = true
is_empty (x ∷ xs) = false

List-cases : (l : List String) → (l ≡ []) ⊎ ((x : String) × (xs : List String) × (l ≡ x ∷ xs))
List-cases [] = inl refl
List-cases (x ∷ xs) = inr (x, xs, refl)

-- The keys that an id still waits for, behind the message of `key`.
abbrev pub without : String → Option (List String) → Option (List String)
without key none = none
without key (some keys) = some (delete key keys)

-- The message of `key` is the last one that the id waits for.
abbrev pub is_last : String → Option (List String) → Bool
is_last key none = false
is_last key (some keys) = is_empty (delete key keys)

abbrev pub filled : Option ℕ → Option ℕ
filled none = none
filled (some n) = some 1

-- What the message of `key` does to the id `j`, if it is among those that wait for the key.
abbrev pub Woken : String → Bool → String → Registry → Registry → Type 0
Woken key among j reg reg' =
    (lookup j reg'.request_id_keys ≡ (
      if among then without key (lookup j reg.request_id_keys) else lookup j reg.request_id_keys))
    × (lookup j reg'.channels ≡ (
        if among && is_last key (lookup j reg.request_id_keys)
        then filled (lookup j reg.channels)
        else lookup j reg.channels))

-- The channel of an id is not full when its last key comes.
abbrev pub Free : String → Registry → String → Type 0
Free key reg id =
    is_last key (lookup id reg.request_id_keys) ≡ true
    → (lookup id reg.channels ≡ none) ⊎ (lookup id reg.channels ≡ some 0)

-- A message for an id with nothing registered.
absent :
    (key id : String) (reg : Registry) (j : String)
    → lookup id reg.request_id_keys ≡ none
    → Woken key (j == id) j reg reg
absent key id reg j e = (ground (arith, e, eq_iff j id), ground (arith, e, eq_iff j id))

still_waits :
    (key id k : String) (keys ks : List String) (reg : Registry) (j : String)
    → lookup id reg.request_id_keys ≡ some keys
    → delete key keys ≡ k ∷ ks
    → Woken key
        (j == id)
        j
        reg
        (record reg { request_id_keys = insert id (k ∷ ks) reg.request_id_keys })
still_waits key id k keys ks reg j e d =
    let l = lookup-insert id j (k ∷ ks) reg.request_id_keys in
    (ground (arith, l, d, e, eq_iff j id), ground (arith, d, e, eq_iff j id))

is_done :
    (key id : String) (keys : List String) (reg : Registry) (j : String)
    → lookup id reg.request_id_keys ≡ some keys
    → delete key keys ≡ []
    → lookup id reg.channels ≡ some 0
    → Woken key (j == id) j reg (record reg {
      request_id_keys = insert id [] reg.request_id_keys;
      channels = insert id 1 reg.channels;
    })
is_done key id keys reg j e d c =
    let l = lookup-insert {V = List String} id j [] reg.request_id_keys in
    let n = lookup-insert id j 1 reg.channels in
    (ground (arith, l, d, e, eq_iff j id), ground (arith, n, d, e, c, eq_iff j id))

has_left :
    (key id : String) (keys : List String) (reg : Registry) (j : String)
    → lookup id reg.request_id_keys ≡ some keys
    → delete key keys ≡ []
    → lookup id reg.channels ≡ none
    → Woken key (j == id) j reg (record reg { request_id_keys = insert id [] reg.request_id_keys })
has_left key id keys reg j e d c =
    let l = lookup-insert {V = List String} id j [] reg.request_id_keys in
    (ground (arith, l, d, e, eq_iff j id), ground (arith, d, e, c, eq_iff j id))

wake-Sure :
    (key id : String) (reg : Registry)
    → Free key reg id
    → Sure
        (λ reg'.
          ((j : String) → Woken key (j == id) j reg reg')
          × (reg'.keys_request_ids ≡ reg.keys_request_ids))
        (wake key id reg)
unfolding wake
wake-Sure key id reg free = elim (Option-cases (lookup id reg.request_id_keys)) [
  | inl e ↦ rw e (reg, refl, (λ j. absent key id reg j e, refl))
  | inr (keys, e) ↦ elim (List-cases (delete key keys)) [
    | inr (k, ks, d) ↦ rw (e, d) (_, refl, (λ j. still_waits key id k keys ks reg j e d, refl))
    | inl d ↦ elim (free (ground (arith, e, d))) [
      | inl c ↦ rw (e, d, c) (_, refl, (λ j. has_left key id keys reg j e d c, refl))
      | inr c ↦ rw (e, d, c) (_, refl, (λ j. is_done key id keys reg j e d c, refl))
    ]
  ]
]

Free-other :
    (key id j : String) (reg reg' : Registry)
    → Woken key (j == id) j reg reg'
    → (j == id) ≡ false
    → Free key reg j
    → Free key reg' j
Free-other key id j reg reg' w e free =
    let keys : lookup j reg'.request_id_keys ≡ lookup j reg.request_id_keys =
      ground (arith, w.0, e) in
    let buffer : lookup j reg'.channels ≡ lookup j reg.channels = ground (arith, w.1, e) in
    rw (keys, buffer) free

Free-others :
    (key id : String) (ids : List String) (reg reg' : Registry)
    → ((j : String) → Woken key (j == id) j reg reg')
    → contains id ids ≡ false
    → All (Free key reg) ids
    → All (Free key reg') ids
unfolding contains
Free-others key id [] reg reg' w h free = _
Free-others key id (j ∷ ids) reg reg' w h free = (
  Free-other key id j reg reg' (w j) (ground (arith, h)) free.0,
  Free-others key id ids reg reg' w (ground (arith, h)) free.1,
)

-- One id after the others, each of them once.
Woken-step :
    (key id j : String) (ids : List String) (reg mid reg' : Registry)
    → contains id ids ≡ false
    → Woken key (j == id) j reg mid
    → Woken key (contains j ids) j mid reg'
    → Woken key (contains j (id ∷ ids)) j reg reg'
unfolding contains
Woken-step key id j ids reg mid reg' h w w' = elim (Bool-cases (j == id)) [
  | inl e ↦
      let same : j ≡ id = ground (arith, e, eq_iff j id) in
      let gone : contains j ids ≡ false = ap (λ (x : String). contains x ids) same ∙ h in
      (
        ground (arith, w.0, w'.0, e, gone, eq_iff j id, eq_iff id j),
        ground (arith, w.0, w.1, w'.1, e, gone, eq_iff j id, eq_iff id j),
      )
  | inr e ↦ (
    ground (arith, w.0, w'.0, e, eq_iff j id, eq_iff id j),
    ground (arith, w.0, w.1, w'.1, e, eq_iff j id, eq_iff id j),
  )
]

pub wake_all-Sure :
    (key : String) (ids : List String) (reg : Registry)
    → Distinct ids
    → All (Free key reg) ids
    → Sure
        (λ reg'.
          ((j : String) → Woken key (contains j ids) j reg reg')
          × (reg'.keys_request_ids ≡ reg.keys_request_ids))
        (wake_all key ids reg)
unfolding wake_all contains
wake_all-Sure key [] reg hd free = (reg, refl, (λ j. (refl, refl), refl))
wake_all-Sure key (id ∷ ids) reg hd free =
    Sure->>= _ _ (wake key id reg) _ (wake-Sure key id reg free.0) (λ mid h.
      Sure-mono _ _ _
        (wake_all-Sure key ids mid hd.1 (Free-others key id ids reg mid h.0 hd.0 free.1))
        (λ reg' h'. (λ j. Woken-step key id j ids reg mid reg' hd.0 (h.0 j) (h'.0 j), h'.1 ∙ h.1)))

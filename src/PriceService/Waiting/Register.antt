-- ===== src/PriceService/Waiting/Register.antt =====
-- The registration of a caller, and its leave, keep the three maps linked.
use token_price_proxy.Prelude.{
  ℕ, ◌≡◌, refl, ap, subst, ◌∙◌, String, true, false, ◌==◌, none, some, List, [], ◌∷◌, ◌++◌, ◌⊎◌,
  inl, inr, All, All-append, Bool-cases, Option-cases, if◌then◌else◌, eq_iff, eq_refl, arith,
}
use token_price_proxy.Prelude.Maps.{
  lookup, insert, erase, contains, lookup-insert, lookup-erase, contains-add,
}
use token_price_proxy.PriceService.Queue.Spec.{Distinct, Distinct-append_one}
use token_price_proxy.PriceService.Waiting.{
  Registry, ids_of, wait_for, wait_for_all, key_set, register_batch, register_price, leave,
}
use token_price_proxy.PriceService.Waiting.Wakes.{is_empty}
use token_price_proxy.PriceService.Waiting.Linked.{Waits, Linked}

-- No map knows the id: it is made of a random text.
abbrev pub Fresh : String → Registry → Type 0
Fresh id reg =
    (key : String) (ids : List String)
    → lookup key reg.keys_request_ids ≡ some ids
    → contains id ids ≡ false

-- The maps with an id registered for some keys.
abbrev Registers : String → List String → Registry → Registry → Type 0
Registers id keys reg reg' =
    ((key : String)
      → lookup key reg'.keys_request_ids ≡ (
          if contains key keys
          then some (ids_of (lookup key reg.keys_request_ids) ++ id ∷ [])
          else lookup key reg.keys_request_ids))
    × ((ks : List String) × ((key : String) → contains key ks ≡ contains key keys)
        × ((j : String)
            → lookup j reg'.request_id_keys
              ≡ (if j == id then some ks else lookup j reg.request_id_keys)))
    × ((j : String) → lookup j reg'.channels ≡ (if j == id then some 0 else lookup j reg.channels))

module _ (id : String) (keys : List String) (reg reg' : Registry) (l : Linked reg)
    (r : Registers id keys reg reg') where
  -- The others wait as before.
  Waits-before :
      (key : String) (j : String) → (j == id) ≡ false → Waits key reg j → Waits key reg' j
  Waits-before key j h w ks e = w ks (ground (arith, h, e, r.1.2 j))

  All-Waits-before :
      (key : String) (ids : List String)
      → contains id ids ≡ false
      → All (Waits key reg) ids
      → All (Waits key reg') ids
  unfolding contains
  All-Waits-before key [] h hs = _
  All-Waits-before key (j ∷ ids) h hs = (
    Waits-before key j (ground (arith, h)) hs.0,
    All-Waits-before key ids (ground (arith, h)) hs.1,
  )

  Waits-new : (key : String) → contains key keys ≡ true → Waits key reg' id
  Waits-new key h ks e = ground (arith, h, e, r.1.2 id, eq_refl id, r.1.1 key)

  quiet_new :
      (j : String) (ks : List String)
      → lookup j reg'.request_id_keys ≡ some ks
      → is_empty ks ≡ false
      → (lookup j reg'.channels ≡ none) ⊎ (lookup j reg'.channels ≡ some 0)
  quiet_new j ks e h = elim (Bool-cases (j == id)) [
    | inl b ↦ inr (ground (arith, b, r.2 j))
    | inr b ↦
        let same : lookup j reg'.channels ≡ lookup j reg.channels = ground (arith, b, r.2 j) in
        rw same (l.quiet j ks (ground (arith, b, e, r.1.2 j)) h)
  ]

  known :
      (key : String)
      → Fresh id reg
      → Distinct (ids_of (lookup key reg.keys_request_ids))
        × All (Waits key reg') (ids_of (lookup key reg.keys_request_ids))
        × (contains id (ids_of (lookup key reg.keys_request_ids)) ≡ false)
  unfolding contains
  known key f = elim (Option-cases (lookup key reg.keys_request_ids)) [
    | inl e ↦ rw e (_, _, refl)
    | inr (ids, e) ↦
        let (d, w) = l.waits key ids e in
        rw e (d, All-Waits-before key ids (f key ids e) w, f key ids e)
  ]

  registered : Fresh id reg → Linked reg'
  registered f = record {
    waits = λ key ids e. elim (Bool-cases (contains key keys)) [
      | inl b ↦
          let (d, w, n) = known key f in
          let now : ids_of (lookup key reg.keys_request_ids) ++ id ∷ [] ≡ ids =
            ground (arith, b, e, r.0 key) in
          subst (λ (x : List String). Distinct x × All (Waits key reg') x) now
            (
              Distinct-append_one id (ids_of (lookup key reg.keys_request_ids)) d n,
              All-append (Waits key reg') (ids_of (lookup key reg.keys_request_ids)) (id ∷ []) w
                  (Waits-new key b, _),
            )
      | inr b ↦
          let before : lookup key reg.keys_request_ids ≡ some ids = ground (arith, b, e, r.0 key) in
          let (d, w) = l.waits key ids before in (d, All-Waits-before key ids (f key ids before) w)
    ];
    quiet = quiet_new;
  }

waiting-fields :
    (id : String) (keys : List String) (reg : Registry)
    → ((wait_for_all id keys reg).request_id_keys ≡ reg.request_id_keys)
      × ((wait_for_all id keys reg).channels ≡ reg.channels)
unfolding wait_for_all wait_for
waiting-fields id [] reg = (refl, refl)
waiting-fields id (key ∷ keys) reg = waiting-fields id keys (wait_for id key reg)

waiting-ids :
    (id : String) (keys : List String) (reg : Registry) (key : String)
    → Distinct keys
    → lookup key (wait_for_all id keys reg).keys_request_ids ≡ (
        if contains key keys
        then some (ids_of (lookup key reg.keys_request_ids) ++ id ∷ [])
        else lookup key reg.keys_request_ids)
unfolding wait_for_all wait_for contains
waiting-ids id [] reg key d = refl
waiting-ids id (k ∷ keys) reg key d =
    let one =
      lookup-insert k key (ids_of (lookup k reg.keys_request_ids) ++ id ∷ [])
        reg.keys_request_ids in
    let ih = waiting-ids id keys (wait_for id k reg) key d.1 in
    elim (Bool-cases (key == k)) [
      | inl e ↦
          let same : key ≡ k = ground (arith, e, eq_iff key k) in
          let gone : contains key keys ≡ false = ap (λ (x : String). contains x keys) same ∙ d.0 in
          ground (arith, one, ih, e, gone, eq_iff key k, eq_iff k key)
      | inr e ↦ ground (arith, one, ih, e, eq_iff key k, eq_iff k key)
    ]

contains-key_set :
    (key : String) (keys : List String) → contains key (key_set keys) ≡ contains key keys
unfolding contains
contains-key_set key [] = refl
contains-key_set key (k ∷ keys) =
    ground (arith, contains-add k key (key_set keys), contains-key_set key keys)

-- GetBatchPrice registers a fresh id for the distinct keys that it asks for, and the maps stay
-- linked.
pub register_batch-Linked :
    (id : String) (keys : List String) (reg : Registry)
    → Linked reg
    → Fresh id reg
    → Distinct keys
    → Linked (register_batch id keys reg)
unfolding register_batch
register_batch-Linked id keys reg l f d =
    let opened : Registry = record reg { channels = insert id 0 reg.channels } in
    let same = waiting-fields id keys opened in
    registered id keys reg _ l
      (
        λ key. waiting-ids id keys opened key d,
        (
          key_set keys,
          λ key. contains-key_set key keys,
          λ j.
              lookup-insert id j (key_set keys) (wait_for_all id keys opened).request_id_keys
              ∙ ap
                  (λ (m : List (String × List String)).
                    if j == id then some (key_set keys) else lookup j m)
                  same.0,
        ),
        λ j. ap (λ (m : List (String × ℕ)). lookup j m) same.1 ∙ lookup-insert id j 0 reg.channels,
      )
      f

-- GetPrice registers a fresh id for its key, and the maps stay linked.
pub register_price-Linked :
    (id key : String) (reg : Registry)
    → Linked reg
    → Fresh id reg
    → Linked (register_price id key reg)
unfolding register_price wait_for contains
register_price-Linked id key reg l f =
    registered id (key ∷ []) reg _ l
      (
        λ k.
            let one =
              lookup-insert key k (ids_of (lookup key reg.keys_request_ids) ++ id ∷ [])
                reg.keys_request_ids in
            ground (arith, one, eq_iff key k, eq_iff k key),
        (key ∷ [], λ k. refl, λ j. lookup-insert id j (key ∷ []) reg.request_id_keys),
        λ j. lookup-insert id j 0 reg.channels,
      )
      f

Waits-left : (key id j : String) (reg : Registry) → Waits key reg j → Waits key (leave id reg) j
unfolding leave
Waits-left key id j reg w ks e = w ks (ground (arith, e, lookup-erase id j reg.request_id_keys))

All-left :
    (key id : String) (ids : List String) (reg : Registry)
    → All (Waits key reg) ids
    → All (Waits key (leave id reg)) ids
All-left key id [] reg h = _
All-left key id (j ∷ ids) reg h = (Waits-left key id j reg h.0, All-left key id ids reg h.1)

-- A caller that leaves, with its answer or at its time-out, keeps the maps linked.
pub leave-Linked : (id : String) (reg : Registry) → Linked reg → Linked (leave id reg)
unfolding leave
leave-Linked id reg l = record {
  waits = λ key ids e. let (d, w) = l.waits key ids e in (d, All-left key id ids reg w);
  quiet = λ j keys e h.
      let gone = lookup-erase id j reg.request_id_keys in
      let closed = lookup-erase id j reg.channels in
      let same : lookup j (erase id reg.channels) ≡ lookup j reg.channels =
        ground (arith, gone, closed, e) in
      rw same (l.quiet j keys (ground (arith, gone, e)) h);
}

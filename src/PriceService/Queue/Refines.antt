-- ===== src/PriceService/Queue/Refines.antt =====
-- The scripts keep the queue and the set of its keys together: what they do to a queue of requests
-- with distinct keys.
use token_price_proxy.Prelude.{
  ℕ, ◌≡◌, refl, sym, ap, subst, ◌∙◌, String, true, false, some, List, [], ◌∷◌, ◌++◌, ◌==◌, inl, inr,
  All, All-append, Bool-cases, if◌then◌else◌, take, drop, take-append-drop, eq_refl, arith,
}
use token_price_proxy.Prelude.Maps.{contains, delete}
use token_price_proxy.Prelude.Text.{==-comm}
use token_price_proxy.Redis.Commands.{
  ok, Keyspace, put, sadd, srem, rpush, lrange, ltrim, members_at, items_at, ttl_at, set_entry,
  list_entry,
}
use token_price_proxy.Redis.Script.{pure, ◌>>◌, bind-ok}
use token_price_proxy.PriceService.Queue.Scripts.{
  request_key, enqueue_script, forget_key, forget, clear, drain_script,
}
use token_price_proxy.PriceService.Queue.Spec.{
  Requests, keys, infos, Distinct, Keyed, enter, members-set_entry, items-list_entry, deleted_first,
  Distinct-append_one, map-append_one, take-map, drop-map, All-drop, All-left, Distinct-drop,
}

module _ (set_key queue_key : String) where
  -- The keyspace holds the requests `l`: their texts in the list, and their keys in the set.
  abbrev pub IsQueue : Requests → Keyspace → Type 0
  IsQueue l ks =
      (members_at (ks set_key) ≡ some (keys l))
      × (items_at (ks queue_key) ≡ some (infos l))
      × Distinct (keys l)
      × All Keyed l

module _ (set_key queue_key : String) (apart : (set_key == queue_key) ≡ false) where
  with_members : List String → Keyspace → Keyspace
  with_members m ks = put set_key (set_entry (ttl_at (ks set_key)) m) ks

  with_items : List String → Keyspace → Keyspace
  with_items l ks = put queue_key (list_entry (ttl_at (ks queue_key)) l) ks

  with_members_lem :
      (m : List String) (ks : Keyspace)
      → (members_at (with_members m ks set_key) ≡ some m)
        × (items_at (with_members m ks queue_key) ≡ items_at (ks queue_key))
  unfolding with_members
  with_members_lem m ks = rw (eq_refl set_key, apart) (members-set_entry _ m, refl)

  with_items_lem :
      (l : List String) (ks : Keyspace)
      → (items_at (with_items l ks queue_key) ≡ some l)
        × (members_at (with_items l ks set_key) ≡ members_at (ks set_key))
  unfolding with_items
  with_items_lem l ks =
      rw (eq_refl queue_key, ==-comm queue_key set_key, apart) (items-list_entry _ l, refl)

  sadd_lem :
      (x : String) (m : List String) (ks : Keyspace)
      → members_at (ks set_key) ≡ some m
      → sadd set_key x ks
        ≡ (if contains x m then (ok false, ks) else (ok true, with_members (m ++ x ∷ []) ks))
  unfolding with_members
  sadd_lem x m ks e = ground (arith, e)

  srem_lem :
      (x : String) (m : List String) (ks : Keyspace)
      → members_at (ks set_key) ≡ some m
      → srem set_key x ks ≡ (ok (contains x m), with_members (delete x m) ks)
  unfolding with_members
  srem_lem x m ks e = ground (arith, e)

  rpush_lem :
      (x : String) (l : List String) (ks : Keyspace)
      → items_at (ks queue_key) ≡ some l
      → rpush queue_key x ks ≡ (ok tt, with_items (l ++ x ∷ []) ks)
  unfolding with_items
  rpush_lem x l ks e = ground (arith, e)

  ltrim_lem :
      (n : ℕ) (l : List String) (ks : Keyspace)
      → items_at (ks queue_key) ≡ some l
      → ltrim queue_key n ks ≡ (ok tt, with_items (drop n l) ks)
  unfolding with_items
  ltrim_lem n l ks e = ground (arith, e)

  lrange_lem :
      (n : ℕ) (l : List String) (ks : Keyspace)
      → items_at (ks queue_key) ≡ some l
      → lrange queue_key n ks ≡ (ok (take n l), ks)
  lrange_lem n l ks e = ground (arith, e)

  enqueued :
      (key info : String) (l : Requests) (ks : Keyspace)
      → IsQueue set_key queue_key l ks
      → contains key (keys l) ≡ false
      → enqueue_script set_key queue_key key info ks
        ≡ (ok 1, with_items (infos l ++ info ∷ []) (with_members (keys l ++ key ∷ []) ks))
  unfolding enqueue_script
  enqueued key info l ks h e =
      let ks' = with_members (keys l ++ key ∷ []) ks in
      let s = sadd_lem key (keys l) ks h.0 in
      let m = with_members_lem (keys l ++ key ∷ []) ks in
      let fresh : sadd set_key key ks ≡ (ok true, ks') = s ∙ ground (arith, e) in
      bind-ok (sadd set_key key) _ ks fresh
      ∙ bind-ok (rpush queue_key info) _ ks' (rpush_lem info (infos l) ks' (m.1 ∙ h.1))

  present :
      (key info : String) (l : Requests) (ks : Keyspace)
      → IsQueue set_key queue_key l ks
      → contains key (keys l) ≡ true
      → enqueue_script set_key queue_key key info ks ≡ (ok 0, ks)
  unfolding enqueue_script
  present key info l ks h e =
      let stale : sadd set_key key ks ≡ (ok false, ks) =
        sadd_lem key (keys l) ks h.0 ∙ ground (arith, e) in
      bind-ok (sadd set_key key) _ ks stale

  -- A keyed request is queued, behind the others, exactly when no request with its key waits; the
  -- reply counts it; and the set and the list go on holding the same requests.
  pub enqueue-refines :
      (key info : String) (l : Requests) (ks : Keyspace)
      → IsQueue set_key queue_key l ks
      → request_key info ≡ some key
      → ((enqueue_script set_key queue_key key info ks).0
          ≡ ok (if contains key (keys l) then 0 else 1))
        × IsQueue set_key queue_key
            (enter key info l)
            (enqueue_script set_key queue_key key info ks).1
  enqueue-refines key info l ks h hk = elim (Bool-cases (contains key (keys l))) [
    | inl e ↦ rw (present key info l ks h e, e) (refl, h)
    | inr e ↦
        let m = with_members_lem (keys l ++ key ∷ []) ks in
        let i = with_items_lem (infos l ++ info ∷ []) (with_members (keys l ++ key ∷ []) ks) in
        rw (enqueued key info l ks h e, e)
          (
            refl,
            (
              i.1 ∙ m.0 ∙ ap some (sym (map-append_one (λ r. r.0) l (key, info))),
              i.0 ∙ ap some (sym (map-append_one (λ r. r.1) l (key, info))),
              subst Distinct (sym (map-append_one (λ r. r.0) l (key, info)))
                  (Distinct-append_one key (keys l) h.2 e),
              All-append Keyed l ((key, info) ∷ []) h.3 (hk, _),
            ),
          )
  ]

  -- The removal of the keys of the requests that left.
  forget_lem :
      (l rest : Requests) (ks : Keyspace)
      → members_at (ks set_key) ≡ some (keys (l ++ rest))
      → Distinct (keys (l ++ rest))
      → All Keyed l
      → (ks' : Keyspace) × (forget set_key (infos l) ks ≡ (ok tt, ks'))
        × (members_at (ks' set_key) ≡ some (keys rest))
        × (items_at (ks' queue_key) ≡ items_at (ks queue_key))
  unfolding forget
  forget_lem [] rest ks hm hd hk = (ks, refl, hm, refl)
  forget_lem ((key, info) ∷ l) rest ks hm hd hk =
      let gone = with_members (delete key (keys ((key, info) ∷ (l ++ rest)))) ks in
      let m = with_members_lem (delete key (keys ((key, info) ∷ (l ++ rest)))) ks in
      let left = deleted_first key (keys (l ++ rest)) hd.0 in
      let (ks', e, em, ei) = forget_lem l rest gone (m.0 ∙ ap some left) hd.1 hk.1 in
      let removed : (forget_key set_key (some key)) ks ≡ (ok tt, gone) =
        bind-ok (srem set_key key) _ ks (srem_lem key (keys ((key, info) ∷ (l ++ rest))) ks hm) in
      let step : forget set_key (info ∷ infos l) ks ≡ forget set_key (infos l) gone =
        rw hk.0
          (bind-ok (forget_key set_key (some key)) (λ _. forget set_key (infos l)) ks removed) in
      (ks', step ∙ e, em, ei ∙ m.1)

  cleared :
      (n : ℕ) (first rest l : Requests) (ks : Keyspace)
      → first ++ rest ≡ l
      → drop n l ≡ rest
      → IsQueue set_key queue_key l ks
      → ((clear set_key queue_key n (infos first) ks).0 ≡ ok (infos first))
        × IsQueue set_key queue_key rest (clear set_key queue_key n (infos first) ks).1
  unfolding clear
  cleared n [] rest l ks e ed h = (refl, subst (λ x. IsQueue set_key queue_key x ks) (sym e) h)
  cleared n (r ∷ first) rest l ks e ed h =
      let trimmed = with_items (drop n (infos l)) ks in
      let i = with_items_lem (drop n (infos l)) ks in
      let (ks', gone, em, ei) =
        forget_lem (r ∷ first) rest trimmed
          (i.1 ∙ h.0 ∙ ap (λ (x : Requests). some (keys x)) (sym e))
          (subst (λ (x : Requests). Distinct (keys x)) (sym e) h.2)
          (All-left Keyed (r ∷ first) rest (subst (All Keyed) (sym e) h.3)) in
      let emptied : (ltrim queue_key n >> forget set_key (infos (r ∷ first))) ks ≡ (ok tt, ks') =
        bind-ok (ltrim queue_key n) (λ _. forget set_key (infos (r ∷ first))) ks
          (ltrim_lem n (infos l) ks h.1)
        ∙ gone in
      rw
        (bind-ok (ltrim queue_key n >> forget set_key (infos (r ∷ first)))
          (λ _. pure (infos (r ∷ first))) ks emptied)
        (
          refl,
          (
            em,
            ei ∙ i.0 ∙ ap some (drop-map (λ r. r.1) n l ∙ ap infos ed),
            subst (λ (x : Requests). Distinct (keys x)) ed (Distinct-drop n l h.2),
            subst (All Keyed) ed (All-drop Keyed n l h.3),
          ),
        )

  -- A drain hands out the first `n` requests in the order in which they were queued, and the set
  -- and the list go on holding the others, so a drained key can be queued again.
  pub drain-refines :
      (n : ℕ) (l : Requests) (ks : Keyspace)
      → IsQueue set_key queue_key l ks
      → ((drain_script set_key queue_key n ks).0 ≡ ok (take n (infos l)))
        × IsQueue set_key queue_key (drop n l) (drain_script set_key queue_key n ks).1
  unfolding drain_script
  drain-refines n l ks h =
      rw
        (
          bind-ok (lrange queue_key n) (clear set_key queue_key n) ks
              (lrange_lem n (infos l) ks h.1),
          take-map (λ (r : String × String). r.1) n l,
        )
        (cleared n (take n l) (drop n l) l ks (take-append-drop n l) refl h)

-- ===== src/Redis/Replies.antt =====
-- What single commands answer where the key holds a value of their type.
use token_price_proxy.Prelude.{
  ℕ, ◌≡◌, refl, ap, ◌∙◌, String, Bool, true, false, Option, none, some, List, [], ◌∷◌, ◌++◌,
  if◌then◌else◌, length,
}
use token_price_proxy.Prelude.Maps.{contains}
use token_price_proxy.Redis.Commands.{
  Keyspace, Reply, ok, err, put, members_at, items_at, set_entry, list_entry, ttl_at, sadd, rpush,
  lrange_all, llen, sismember,
}

pub items-list_entry :
    (ttl : Option ℕ) (l : List String) (x : String)
    → items_at (list_entry ttl (l ++ x ∷ [])) ≡ some (l ++ x ∷ [])
items-list_entry ttl [] x = refl
items-list_entry ttl (y ∷ l) x = refl

pub lrange_all_lem :
    (k : String) (ks : Keyspace) {l : List String}
    → items_at (ks k) ≡ some l
    → lrange_all k ks ≡ (ok l, ks)
lrange_all_lem k ks {l} h = ap (λ o. listed o) h
  where
    listed : Option (List String) → Reply (List String) × Keyspace
    listed o = elim o [ none ↦ (err, ks) | some l ↦ (ok l, ks) ]

pub sismember_lem :
    (k x : String) (ks : Keyspace) {m : List String}
    → members_at (ks k) ≡ some m
    → sismember k x ks ≡ (ok (contains x m), ks)
sismember_lem k x ks {m} h = ap (λ o. asked o) h
  where
    asked : Option (List String) → Reply Bool × Keyspace
    asked o = elim o [ none ↦ (err, ks) | some m ↦ (ok (contains x m), ks) ]

pub sadd_lem :
    (k x : String) (ks : Keyspace) {m : List String}
    → members_at (ks k) ≡ some m
    → contains x m ≡ false
    → sadd k x ks ≡ (ok true, put k (set_entry (ttl_at (ks k)) (m ++ x ∷ [])) ks)
sadd_lem k x ks {m} h c =
    ap (λ o. added o) h
    ∙ ap
        (λ b.
          if b
          then (ok false, ks)
          else (ok true, put k (set_entry (ttl_at (ks k)) (m ++ x ∷ [])) ks))
        c
  where
    added : Option (List String) → Reply Bool × Keyspace
    added o = elim o [
      | none ↦ (err, ks)
      | some m ↦
          if contains x m
          then (ok false, ks)
          else (ok true, put k (set_entry (ttl_at (ks k)) (m ++ x ∷ [])) ks)
    ]

pub rpush_lem :
    (k x : String) (ks : Keyspace) {l : List String}
    → items_at (ks k) ≡ some l
    → rpush k x ks ≡ (ok tt, put k (list_entry (ttl_at (ks k)) (l ++ x ∷ [])) ks)
rpush_lem k x ks {l} h = ap (λ o. pushed o) h
  where
    pushed : Option (List String) → Reply (Unit {0}) × Keyspace
    pushed o = elim o [
      | none ↦ (err, ks)
      | some l ↦ (ok tt, put k (list_entry (ttl_at (ks k)) (l ++ x ∷ [])) ks)
    ]

pub llen_lem :
    (k : String) (ks : Keyspace) {l : List String}
    → items_at (ks k) ≡ some l
    → llen k ks ≡ (ok (length l), ks)
llen_lem k ks {l} h = ap (λ o. measured o) h
  where
    measured : Option (List String) → Reply ℕ × Keyspace
    measured o = elim o [ none ↦ (err, ks) | some l ↦ (ok (length l), ks) ]

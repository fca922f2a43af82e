-- ===== src/Redis/Commands.antt =====
-- The documented commands of a Redis server, as functions on its keys.
use token_price_proxy.Prelude.{
  ℕ, ◌+◌, ◌-◌, ◌^◌, String, Bool, true, false, Option, none, some, List, [], ◌∷◌, ◌++◌, ◌==◌,
  if◌then◌else◌, ltb, leb, take, drop, length,
}
use token_price_proxy.Prelude.Maps.{contains, delete}

-- The values of the keys. `number`: a string that holds a decimal integer and is counted; `word`:
-- any other string.
pub data Value : Type 0 where
  word : String → Value
  number : ℕ → Value
  members items : List String → Value

-- `ttl`: the milliseconds that are left, if the key expires.
pub record Entry : Type 0 where
  pub value : Value
  pub ttl : Option ℕ

abbrev pub Keyspace : Type 0
Keyspace = String → Option Entry

pub data Reply (A : Type 0) : Type 0 where
  ok : A → Reply A
  err : Reply A

abbrev pub Command : Type 0 → Type 0
Command A = Keyspace → Reply A × Keyspace

abbrev pub put : String → Option Entry → Keyspace → Keyspace
put k e ks j = if k == j then e else ks j

abbrev pub string_of : Option Entry → Reply (Option Value)
string_of none = ok none
string_of (some e) = elim e.value [
  | word s ↦ ok (some e.value)
  | number n ↦ ok (some e.value)
  | members m ↦ err
  | items l ↦ err
]

-- GET: `ok none` is redis.Nil, and a key of another type is an error.
abbrev pub get : String → Command (Option Value)
get k ks = (string_of (ks k), ks)

-- SET key value PX ttl
abbrev pub set : String → Value → ℕ → Command (Unit {0})
set k v ttl ks = (ok tt, put k (some (record { value = v; ttl = some ttl })) ks)

abbrev set_nx_at : Option Entry → String → Value → ℕ → Command Bool
set_nx_at none k v ttl ks = (ok true, put k (some (record { value = v; ttl = some ttl })) ks)
set_nx_at (some e) k v ttl ks = (ok false, ks)

-- SET key value NX PX ttl
abbrev pub set_nx : String → Value → ℕ → Command Bool
set_nx k v ttl ks = set_nx_at (ks k) k v ttl ks

abbrev pub max_int64 : ℕ
max_int64 = 2 ^ 63 - 1

abbrev incr_value : Entry → Value → String → Command ℕ
incr_value e (number n) k ks =
    if ltb n max_int64
    then (ok (n + 1), put k (some (record e { value = number (n + 1) })) ks)
    else (err, ks)
incr_value e _ k ks = (err, ks)

abbrev incr_at : Option Entry → String → Command ℕ
incr_at none k ks = (ok 1, put k (some (record { value = number 1; ttl = none })) ks)
incr_at (some e) k ks = incr_value e e.value k ks

-- INCR: a missing key counts from 0, and the time to live stays.
abbrev pub incr : String → Command ℕ
incr k ks = incr_at (ks k) k ks

abbrev expire_at : Option Entry → String → ℕ → Command Bool
expire_at none k ttl ks = (ok false, ks)
expire_at (some e) k ttl ks = (ok true, put k (some (record e { ttl = some ttl })) ks)

abbrev pub expire : String → ℕ → Command Bool
expire k ttl ks = expire_at (ks k) k ttl ks

abbrev pub del : String → Command (Unit {0})
del k ks = (ok tt, put k none ks)

-- The members of a set, and the items of a list; a missing key is empty.
abbrev pub members_at : Option Entry → Option (List String)
members_at none = some []
members_at (some e) = elim e.value [
  | members m ↦ some m
  | word _ ↦ none
  | number _ ↦ none
  | items _ ↦ none
]

abbrev pub items_at : Option Entry → Option (List String)
items_at none = some []
items_at (some e) = elim e.value [
  | items l ↦ some l
  | word _ ↦ none
  | number _ ↦ none
  | members _ ↦ none
]

abbrev pub ttl_at : Option Entry → Option ℕ
ttl_at none = none
ttl_at (some e) = e.ttl

-- Redis keeps no empty list or set.
abbrev pub list_entry : Option ℕ → List String → Option Entry
list_entry ttl [] = none
list_entry ttl (x ∷ xs) = some (record { value = items (x ∷ xs); ttl = ttl })

abbrev pub set_entry : Option ℕ → List String → Option Entry
set_entry ttl [] = none
set_entry ttl (x ∷ xs) = some (record { value = members (x ∷ xs); ttl = ttl })

-- SADD of one member: whether it is new.
abbrev pub sadd : String → String → Command Bool
sadd k x ks = elim (members_at (ks k)) [
  | none ↦ (err, ks)
  | some m ↦
      if contains x m
      then (ok false, ks)
      else (ok true, put k (set_entry (ttl_at (ks k)) (m ++ x ∷ [])) ks)
]

-- SREM of one member.
abbrev pub srem : String → String → Command Bool
srem k x ks = elim (members_at (ks k)) [
  | none ↦ (err, ks)
  | some m ↦ (ok (contains x m), put k (set_entry (ttl_at (ks k)) (delete x m)) ks)
]

abbrev pub rpush : String → String → Command (Unit {0})
rpush k x ks = elim (items_at (ks k)) [
  | none ↦ (err, ks)
  | some l ↦ (ok tt, put k (list_entry (ttl_at (ks k)) (l ++ x ∷ [])) ks)
]

-- LRANGE key 0 (n - 1), for 0 < n
abbrev pub lrange : String → ℕ → Command (List String)
lrange k n ks = elim (items_at (ks k)) [ none ↦ (err, ks) | some l ↦ (ok (take n l), ks) ]

-- LRANGE key 0 -1
abbrev pub lrange_all : String → Command (List String)
lrange_all k ks = elim (items_at (ks k)) [ none ↦ (err, ks) | some l ↦ (ok l, ks) ]

abbrev pub llen : String → Command ℕ
llen k ks = elim (items_at (ks k)) [ none ↦ (err, ks) | some l ↦ (ok (length l), ks) ]

abbrev pub sismember : String → String → Command Bool
sismember k x ks = elim (members_at (ks k)) [ none ↦ (err, ks) | some m ↦ (ok (contains x m), ks) ]

-- LTRIM key n -1
abbrev pub ltrim : String → ℕ → Command (Unit {0})
ltrim k n ks = elim (items_at (ks k)) [
  | none ↦ (err, ks)
  | some l ↦ (ok tt, put k (list_entry (ttl_at (ks k)) (drop n l)) ks)
]

abbrev lived : ℕ → Option ℕ → Entry → Option Entry
lived t none e = some e
lived t (some ttl) e = if leb ttl t then none else some (record e { ttl = some (ttl - t) })

-- `t` milliseconds pass: a key goes when its time to live is over.
abbrev pub elapse : ℕ → Keyspace → Keyspace
elapse t ks k = elim (ks k) [ none ↦ none | some e ↦ lived t e.ttl e ]

-- The number that a counter's key stands for; `none` if it holds something else.
abbrev pub count_of : Option Entry → Option ℕ
count_of none = some 0
count_of (some e) = elim e.value [
  | number n ↦ some n
  | word _ ↦ none
  | members _ ↦ none
  | items _ ↦ none
]

-- ===== src/PriceService/Queue/Spec.antt =====
-- The queue of requests as a list of keys and texts, and facts on such lists.
use token_price_proxy.Prelude.{
  ℕ, zero, suc, ◌≡◌, refl, ap, String, false, ◌||◌, Option, some, List, [], ◌∷◌, ◌++◌, ◌==◌, map,
  All, if◌then◌else◌, take, drop, eq_refl, arith,
}
use token_price_proxy.Prelude.Maps.{contains, delete}
use token_price_proxy.Prelude.Text.{==-comm}
use token_price_proxy.Redis.Commands.{members_at, items_at, set_entry, list_entry}
use token_price_proxy.PriceService.Queue.Scripts.{request_key}

-- A request as its key and the text that is queued.
abbrev pub Requests : Type 0
Requests = List (String × String)

abbrev pub keys : Requests → List String
keys l = map (λ r. r.0) l

abbrev pub infos : Requests → List String
infos l = map (λ r. r.1) l

abbrev pub Distinct : List String → Type 0
Distinct [] = Unit
Distinct (k ∷ ks) = (contains k ks ≡ false) × Distinct ks

abbrev pub Keyed : String × String → Type 0
Keyed r = request_key r.1 ≡ some r.0

-- What the queue promises: a request whose key waits is not queued again, and requests leave in
-- the order in which they came.
abbrev pub enter : String → String → Requests → Requests
enter key info l = if contains key (keys l) then l else l ++ (key, info) ∷ []

pub members-set_entry : (ttl : Option ℕ) (m : List String) → members_at (set_entry ttl m) ≡ some m
members-set_entry ttl [] = refl
members-set_entry ttl (x ∷ m) = refl

pub items-list_entry : (ttl : Option ℕ) (l : List String) → items_at (list_entry ttl l) ≡ some l
items-list_entry ttl [] = refl
items-list_entry ttl (x ∷ l) = refl

pub delete-absent : (k : String) (s : List String) → contains k s ≡ false → delete k s ≡ s
unfolding contains delete
delete-absent k [] h = refl
delete-absent k (j ∷ s) h = ground (arith, delete-absent k s, ==-comm j k)

pub deleted_first : (k : String) (s : List String) → contains k s ≡ false → delete k (k ∷ s) ≡ s
unfolding delete
deleted_first k s h = rw (eq_refl k) (delete-absent k s h)

pub contains-append_one :
    (j k : String) (s : List String) → contains j (s ++ k ∷ []) ≡ (contains j s || (k == j))
unfolding contains
contains-append_one j k [] = ground arith
contains-append_one j k (i ∷ s) = ground (arith, contains-append_one j k s)

pub Distinct-append_one :
    (k : String) (s : List String) → Distinct s → contains k s ≡ false → Distinct (s ++ k ∷ [])
unfolding contains
Distinct-append_one k [] hs h = (refl, _)
Distinct-append_one k (j ∷ s) hs h = (
  ground (arith, contains-append_one j k s, hs.0, h, ==-comm j k),
  Distinct-append_one k s hs.1 (ground (arith, h)),
)

pub map-append_one :
    {A B : Type 0} (f : A → B) (l : List A) (a : A) → map f (l ++ a ∷ []) ≡ map f l ++ f a ∷ []
map-append_one f [] a = refl
map-append_one f (x ∷ l) a = ap (λ t. f x ∷ t) (map-append_one f l a)

pub take-map : {A B : Type 0} (f : A → B) (n : ℕ) (l : List A) → take n (map f l) ≡ map f (take n l)
take-map f zero l = refl
take-map f (suc n) [] = refl
take-map f (suc n) (x ∷ l) = ap (λ t. f x ∷ t) (take-map f n l)

pub drop-map : {A B : Type 0} (f : A → B) (n : ℕ) (l : List A) → drop n (map f l) ≡ map f (drop n l)
drop-map f zero l = refl
drop-map f (suc n) [] = refl
drop-map f (suc n) (x ∷ l) = drop-map f n l

pub All-drop : {A : Type 0} (P : A → Type 0) (n : ℕ) (l : List A) → All P l → All P (drop n l)
All-drop P zero l h = h
All-drop P (suc n) [] h = h
All-drop P (suc n) (x ∷ l) h = All-drop P n l h.1

pub All-left : {A : Type 0} (P : A → Type 0) (xs ys : List A) → All P (xs ++ ys) → All P xs
All-left P [] ys h = _
All-left P (x ∷ xs) ys h = (h.0, All-left P xs ys h.1)

pub Distinct-drop : (n : ℕ) (l : Requests) → Distinct (keys l) → Distinct (keys (drop n l))
Distinct-drop zero l h = h
Distinct-drop (suc n) [] h = h
Distinct-drop (suc n) (x ∷ l) h = Distinct-drop n l h.1

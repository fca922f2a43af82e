-- ===== src/PriceService/Cached/Batch.antt =====
-- WaitForBatchResults: the rows of a batch from the positions that are cached and the results that
-- are stored.
use token_price_proxy.Prelude.{
  ℕ, ◌+◌, ◌≡◌, refl, ◌∙◌, String, Bool, true, false, ◌==◌, Option, none, some, List, [], ◌∷◌, All,
  if◌then◌else◌, arith, length, str_append, Bool-cases, inl, inr,
}
use token_price_proxy.Prelude.Panic.{Sure}
use token_price_proxy.Redis.Commands.{
  Value, word, number, members, items, Entry, Keyspace, Reply, get,
}
use token_price_proxy.Redis.Run.{Prog, done, ◌>>=◌, command, Server, run, run-eval, eval, eval-bind}
use token_price_proxy.PriceService.{PriceResult, Result, ok, err, get_or_nil}
use token_price_proxy.PriceService.Queue.Messages.{result_key}
use token_price_proxy.PriceService.Cached.{text_at}

-- A position of the batch: its chain, its address, the key of its stored result, and its entry of
-- resultMap, if there is one.
pub record Slot : Type 0 where
  pub chain_id : String
  pub address : String
  pub key : String
  pub entry : Option (Option String)

-- The other arguments, and the clock as a decimal text.
pub record Wanted : Type 0 where
  pub symbols : List String
  pub networks : List String
  pub now : String

-- The slots of chainIds[i] and addresses[i], for lists of one length; `none` is an index out of range.
unfoldable pub slots :
    (String → String)
    → List String
    → List String
    → List (Option (Option String))
    → Option (List Slot)
slots to_lower [] [] entries = some []
slots to_lower (c ∷ chain_ids) (a ∷ addresses) (e ∷ entries) =
    elim (slots to_lower chain_ids addresses entries) [
      | none ↦ none
      | some rest ↦
          some (
            record { chain_id = c; address = a; key = result_key c (to_lower a); entry = e } ∷ rest)
    ]
slots to_lower _ _ _ = none

-- The pipeline: a Get for each position without an entry.
unfoldable pub get_all : List Slot → Prog (List (Option (Reply (Option Value))))
get_all [] = done []
get_all (slot ∷ rest) = elim slot.entry [
  | some price ↦ get_all rest >>= λ replies. done (none ∷ replies)
  | none ↦ command (get slot.key) >>= λ r. get_all rest >>= λ replies. done (some r ∷ replies)
]

-- `err != nil && err != redis.Nil` behind Exec, which returns the first error of its commands.
abbrev pub exec_failed : List (Option (Reply (Option Value))) → Bool
exec_failed [] = false
exec_failed (none ∷ replies) = exec_failed replies
exec_failed (some Reply.err ∷ replies) = true
exec_failed (some (Reply.ok none) ∷ replies) = false
exec_failed (some (Reply.ok (some v)) ∷ replies) = exec_failed replies

abbrev pub row_of : Wanted → ℕ → Slot → Option String → String → PriceResult
row_of q i slot price time_stamp = record {
  chain_id = slot.chain_id;
  address = slot.address;
  price = price;
  symbol = get_or_nil q.symbols i;
  network = get_or_nil q.networks i;
  time_stamp = time_stamp;
  request_status = none;
  serial = i;
}

-- The row for the text of a Get; a failed one leaves the empty text as the price.
abbrev pub read_row : Wanted → ℕ → Slot → Option String → PriceResult
read_row q i slot none = row_of q i slot (some "") q.now
read_row q i slot (some price) =
    if price == "-1" then row_of q i slot none "0" else row_of q i slot (some price) q.now

abbrev pub entry_row :
    Wanted → ℕ → Slot → Option (Option String) → Option (Reply (Option Value)) → PriceResult
entry_row q i slot (some price) reply = row_of q i slot price q.now
entry_row q i slot none none = read_row q i slot none
entry_row q i slot none (some r) = read_row q i slot (text_at r)

unfoldable pub rows :
    Wanted → ℕ → List Slot → List (Option (Reply (Option Value))) → List PriceResult
rows q i [] replies = []
rows q i (slot ∷ rest) [] = []
rows q i (slot ∷ rest) (r ∷ replies) = entry_row q i slot slot.entry r ∷ rows q (i + 1) rest replies

-- WaitForBatchResults on the slots of its arguments.
unfoldable pub wait_for_batch_results : Wanted → List Slot → Prog (Result (List PriceResult))
wait_for_batch_results q batch = get_all batch >>= λ replies.
    done (if exec_failed replies then err "pipeline" else ok (rows q 0 batch replies))

-- What the documentation of GET says of a stored result.
abbrev pub stored : Option Entry → Option String
stored none = none
stored (some e) = elim e.value [
  | word s ↦ some s
  | number n ↦ none
  | members m ↦ none
  | items l ↦ none
]

-- The price and the time of a position: by its entry, or else by the text that is stored, where "-1"
-- stands for no price and a missing text for an empty one.
abbrev pub text_price : String → Option String → Option String × String
text_price now none = (some "", now)
text_price now (some s) = if s == "-1" then (none, "0") else (some s, now)

abbrev pub price_of : String → Option (Option String) → Option String → Option String × String
price_of now (some price) text = (price, now)
price_of now none text = text_price now text

abbrev pub place_key : (String → String) → String → String → String
place_key to_lower chain_id address =
    str_append "price_result:" (str_append chain_id (str_append "_" (to_lower address)))

-- The row of a position.
abbrev pub IsRow :
    (String → String)
    → Wanted
    → Keyspace
    → ℕ
    → String
    → String
    → Option (Option String)
    → PriceResult
    → Type 0
IsRow to_lower q ks i chain_id address entry r =
    (r.chain_id ≡ chain_id)
    × (r.address ≡ address)
    × (r.serial ≡ i)
    × (r.symbol ≡ get_or_nil q.symbols i)
    × (r.network ≡ get_or_nil q.networks i)
    × ((r.price, r.time_stamp)
        ≡ price_of q.now entry (stored (ks (place_key to_lower chain_id address))))

-- One row for each position, in order.
abbrev pub AreRows :
    (String → String)
    → Wanted
    → Keyspace
    → ℕ
    → List String
    → List String
    → List (Option (Option String))
    → List PriceResult
    → Type 0
AreRows to_lower q ks i [] [] [] [] = Unit
AreRows to_lower q ks i (c ∷ chain_ids) (a ∷ addresses) (e ∷ entries) (r ∷ rs) =
    IsRow to_lower q ks i c a e r × AreRows to_lower q ks (i + 1) chain_ids addresses entries rs
AreRows to_lower q ks i _ _ _ _ = ⊥

-- The key of a stored result holds a text, if it is there.
abbrev pub IsText : Option Entry → Type 0
IsText none = Unit
IsText (some e) = (s : String) × (e.value ≡ word s)

abbrev pub AreTexts : (String → String) → Keyspace → List String → List String → Type 0
AreTexts to_lower ks (c ∷ chain_ids) (a ∷ addresses) =
    IsText (ks (place_key to_lower c a)) × AreTexts to_lower ks chain_ids addresses
AreTexts to_lower ks _ _ = Unit

abbrev replies_of : Keyspace → List Slot → List (Option (Reply (Option Value)))
replies_of ks [] = []
replies_of ks (slot ∷ rest) =
    (elim slot.entry [ some price ↦ none | none ↦ some (get slot.key ks).0 ]) ∷ replies_of ks rest

get_one :
    (slot : Slot) (rest : List Slot) (entry : Option (Option String)) (ks : Keyspace)
    → eval (get_all rest) ks ≡ (replies_of ks rest, ks)
    → eval
        (elim entry as (λ _. Prog (List (Option (Reply (Option Value))))) [
          | some price ↦ get_all rest >>= λ replies. done (none ∷ replies)
          | none ↦
              command (get slot.key) >>= λ r. get_all rest >>= λ replies. done (some r ∷ replies)
        ])
        ks
      ≡ (
        (elim entry as (λ _. Option (Reply (Option Value))) [
          | some price ↦ none
          | none ↦ some (get slot.key ks).0
        ])
            ∷ replies_of ks rest,
        ks,
      )
get_one slot rest (some price) ks ih = rw (eval-bind (get_all rest) _ ks, ih) refl
get_one slot rest none ks ih = rw (eval-bind (get_all rest) _ ks, ih) refl

get_all-eval :
    (batch : List Slot) (ks : Keyspace) → eval (get_all batch) ks ≡ (replies_of ks batch, ks)
unfolding get_all
get_all-eval [] ks = refl
get_all-eval (slot ∷ rest) ks = get_one slot rest slot.entry ks (get_all-eval rest ks)

text_at-stored : (key : String) (ks : Keyspace) → text_at (get key ks).0 ≡ stored (ks key)
text_at-stored key ks = ground arith

read_row_lem :
    (to_lower : String → String) (q : Wanted) (i : ℕ) (slot : Slot) (text : Option String)
    → ((read_row q i slot text).chain_id ≡ slot.chain_id)
      × ((read_row q i slot text).address ≡ slot.address)
      × ((read_row q i slot text).serial ≡ i)
      × ((read_row q i slot text).symbol ≡ get_or_nil q.symbols i)
      × ((read_row q i slot text).network ≡ get_or_nil q.networks i)
      × (((read_row q i slot text).price, (read_row q i slot text).time_stamp)
          ≡ text_price q.now text)
read_row_lem to_lower q i slot none = (refl, refl, refl, refl, refl, refl)
read_row_lem to_lower q i slot (some price) = elim (Bool-cases (price == "-1")) [
  | inl e ↦ rw e (refl, refl, refl, refl, refl, refl)
  | inr e ↦ rw e (refl, refl, refl, refl, refl, refl)
]

-- The slot of a position.
abbrev slot_at : (String → String) → String → String → Option (Option String) → Slot
slot_at to_lower c a e = record {
  chain_id = c;
  address = a;
  key = result_key c (to_lower a);
  entry = e;
}

slot_step :
    (to_lower : String → String) (q : Wanted) (ks : Keyspace) (i : ℕ) (c a : String)
    (e : Option (Option String))
    → IsRow to_lower q ks i c a e (
        entry_row q i (slot_at to_lower c a e) e (elim e as (λ _. Option (Reply (Option Value))) [
          | some price ↦ none
          | none ↦ some (get (result_key c (to_lower a)) ks).0
        ]))
slot_step to_lower q ks i c a (some price) = (refl, refl, refl, refl, refl, refl)
slot_step to_lower q ks i c a none =
    rw (text_at-stored (result_key c (to_lower a)) ks)
      (read_row_lem to_lower q i (slot_at to_lower c a none) (stored (ks (place_key to_lower c a))))

-- The slots of lists of one length, and the rows for them.
slots-Sure :
    (to_lower : String → String) (q : Wanted) (ks : Keyspace) (i : ℕ)
    (chain_ids addresses : List String) (entries : List (Option (Option String)))
    → length chain_ids ≡ length addresses
    → length entries ≡ length addresses
    → AreTexts to_lower ks chain_ids addresses
    → Sure
        (λ batch.
          All (λ slot. IsText (ks slot.key)) batch
          × AreRows to_lower q ks i chain_ids addresses entries
              (rows q i batch (replies_of ks batch)))
        (slots to_lower chain_ids addresses entries)
unfolding slots rows
slots-Sure to_lower q ks i [] [] [] h k texts = ([], refl, (_, _))
slots-Sure to_lower q ks i [] [] (e ∷ entries) h k texts = absurd (omega (arith, k))
slots-Sure to_lower q ks i [] (a ∷ addresses) entries h k texts = absurd (omega (arith, h))
slots-Sure to_lower q ks i (c ∷ chain_ids) [] entries h k texts = absurd (omega (arith, h))
slots-Sure to_lower q ks i (c ∷ chain_ids) (a ∷ addresses) [] h k texts = absurd (omega (arith, k))
slots-Sure to_lower q ks i (c ∷ chain_ids) (a ∷ addresses) (e ∷ entries) h k texts =
    let (batch, found, fine) =
      slots-Sure to_lower q ks (i + 1) chain_ids addresses entries (omega (arith, h))
        (omega (arith, k)) texts.1 in
    (
      slot_at to_lower c a e ∷ batch,
      rw found refl,
      ((texts.0, fine.0), (slot_step to_lower q ks i c a e, fine.1)),
    )

no_failure :
    (batch : List Slot) (ks : Keyspace)
    → All (λ slot. IsText (ks slot.key)) batch
    → exec_failed (replies_of ks batch) ≡ false
no_failure [] ks h = refl
no_failure (slot ∷ rest) ks h = ground (arith, no_failure rest ks h.1, h.0)

-- On a server that is up, for as many chains and entries as addresses, where each key
-- "price_result:", the chain, "_" and the lowered address holds a text or nothing:
-- WaitForBatchResults does not index out of range, and returns one row for each position, in order,
-- with the chain, the address, the symbol and the network of the position, and the position as the
-- serial. The price is that of the position's entry if it has one; else the stored text, and no price
-- with the time 0 for a stored -1, and the empty text if nothing is stored.
pub batch-rows :
    (r : Server) (to_lower : String → String) (q : Wanted) (chain_ids addresses : List String)
    (entries : List (Option (Option String))) (s : r.State)
    → r.up s ≡ true
    → length chain_ids ≡ length addresses
    → length entries ≡ length addresses
    → AreTexts to_lower (r.store s) chain_ids addresses
    → Sure
        (λ batch.
          (rs : List PriceResult) × ((run r (wait_for_batch_results q batch) s).0 ≡ ok rs)
          × AreRows to_lower q (r.store s) 0 chain_ids addresses entries rs)
        (slots to_lower chain_ids addresses entries)
unfolding wait_for_batch_results
batch-rows r to_lower q chain_ids addresses entries s alive h k texts =
    let (batch, found, (fine, right)) =
      slots-Sure to_lower q (r.store s) 0 chain_ids addresses entries h k texts in
    (
      batch,
      found,
      (
        rows q 0 batch (replies_of (r.store s) batch),
        (run-eval r (wait_for_batch_results q batch) s alive).0
            ∙ rw
                (
                  eval-bind (get_all batch) _ (r.store s),
                  get_all-eval batch (r.store s),
                  no_failure batch (r.store s) fine,
                )
                refl,
        right,
      ),
    )

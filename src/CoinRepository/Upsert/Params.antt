-- ===== src/CoinRepository/Upsert/Params.antt =====
-- The placeholders of the statement of upsertCoins, and its parameters.
use Prim.Native.Char.{code}
use token_price_proxy.Prelude.{
  ℕ, ◌+◌, ◌*◌, ◌≤◌, ◌<◌, ◌≡◌, refl, String, str_append, some, List, [], ◌∷◌, map, if◌then◌else◌,
  eqb, length, All, Bool-cases, inl, inr, ◌||◌, arith,
}
use text.Mathlib.TextLemmas.{cons-append, nil-append}
use token_price_proxy.CoinRepository.{Coins}
use token_price_proxy.CoinRepository.Upsert.{
  Field, fields, is_kept, is_blank, updated_columns, join, assignment, placeholder, insert_values,
  on_conflict, Statement, upsert_statement,
}

-- The number of `?` in a text.
unfoldable pub marks_in : String → ℕ
marks_in String.[] = 0
marks_in (String.◌∷◌ c s) = (if eqb (code c) b'?' then 1 else 0) + marks_in s

marks_in-append : (a b : String) → marks_in (str_append a b) ≡ marks_in a + marks_in b
unfolding marks_in
marks_in-append String.[] b = rw (nil-append b) (omega arith)
marks_in-append (String.◌∷◌ c a) b = rw (cons-append c a b) (omega (arith, marks_in-append a b))

-- In a list of texts.
unfoldable marks_of : List String → ℕ
marks_of [] = 0
marks_of (s ∷ ss) = marks_in s + marks_of ss

marks_in-join : (ss : List String) → marks_in (join ss) ≡ marks_of ss
unfolding join marks_of marks_in
marks_in-join [] = refl
marks_in-join (s ∷ []) = omega arith
marks_in-join (s ∷ t ∷ ss) = omega (
  arith,
  marks_in-append s (str_append ", " (join (t ∷ ss))),
  marks_in-append ", " (join (t ∷ ss)),
  marks_in-join (t ∷ ss),
)

marks_in-assignment : (column : String) → marks_in column ≡ 0 → marks_in (assignment column) ≡ 0
unfolding marks_in
marks_in-assignment column h = omega (
  arith,
  h,
  marks_in-append column (str_append " = EXCLUDED." column),
  marks_in-append " = EXCLUDED." column,
)

marks_of-updated :
    (fs : List (String × Field))
    → All (λ (f : String × Field). marks_in f.0 ≡ 0) fs
    → marks_of (map assignment (updated_columns fs)) ≡ 0
unfolding marks_of updated_columns
marks_of-updated [] h = refl
marks_of-updated (f ∷ fs) h = elim (Bool-cases (is_kept f.0 || is_blank f.1)) [
  | inl e ↦ rw e (marks_of-updated fs h.1)
  | inr e ↦ rw e (omega (arith, marks_in-assignment f.0 h.0, marks_of-updated fs h.1))
]

fields_unmarked : (c : Coins) → All (λ (f : String × Field). marks_in f.0 ≡ 0) (fields c)
unfolding marks_in fields
fields_unmarked c = omega arith

marks_in-placeholder : (c : Coins) → marks_in (placeholder c) ≡ 20
unfolding marks_in fields join
marks_in-placeholder c = refl

marks_of-placeholders : (coins : List Coins) → marks_of (map placeholder coins) ≡ 20 * length coins
unfolding marks_of
marks_of-placeholders [] = refl
marks_of-placeholders (c ∷ coins) =
    omega (arith, marks_in-placeholder c, marks_of-placeholders coins)

length-insert_values : (coins : List Coins) → length (insert_values coins) ≡ 20 * length coins
unfolding insert_values fields
length-insert_values [] = refl
length-insert_values (c ∷ coins) = omega (arith, length-insert_values coins)

columns_unmarked : (c : Coins) → marks_in (join (map (λ (f : String × Field). f.0) (fields c))) ≡ 0
unfolding marks_in fields join
columns_unmarked c = refl

on_conflict_unmarked : (c : Coins) → marks_in (on_conflict c) ≡ 0
unfolding marks_in
on_conflict_unmarked c =
    let updates = join (map assignment (updated_columns (fields c))) in
    omega (
      arith,
      marks_in-append "ON CONFLICT (id) DO UPDATE SET " (str_append updates ", updated_at = NOW()"),
      marks_in-append updates ", updated_at = NOW()",
      marks_in-join (map assignment (updated_columns (fields c))),
      marks_of-updated (fields c) (fields_unmarked c),
    )

-- `INSERT INTO coins (<columns>) VALUES <rows> <rest>`
abbrev insert_sql : String → String → String → String
insert_sql columns rows rest =
    str_append "INSERT INTO coins ("
      (str_append columns (str_append ") VALUES " (str_append rows (str_append " " rest))))

marks_in-insert_sql :
    (columns rows rest : String)
    → marks_in (insert_sql columns rows rest) ≡ marks_in columns + marks_in rows + marks_in rest
unfolding marks_in
marks_in-insert_sql columns rows rest = omega (
  arith,
  marks_in-append "INSERT INTO coins ("
      (str_append columns (str_append ") VALUES " (str_append rows (str_append " " rest)))),
  marks_in-append columns (str_append ") VALUES " (str_append rows (str_append " " rest))),
  marks_in-append ") VALUES " (str_append rows (str_append " " rest)),
  marks_in-append rows (str_append " " rest),
  marks_in-append " " rest,
)

-- A statement with a placeholder for each of its parameters, 20 for a row.
abbrev Fits : List Coins → Statement → Type 0
Fits batch st =
    (upsert_statement batch ≡ some st)
    × (marks_in st.sql ≡ length st.params)
    × (length st.params ≡ 20 * length batch)

statement_of : (c : Coins) (coins : List Coins) → (st : Statement) × Fits (c ∷ coins) st
unfolding upsert_statement
statement_of c coins =
    let columns = join (map (λ (f : String × Field). f.0) (fields c)) in
    let rows = join (map placeholder (c ∷ coins)) in
    let values = length-insert_values (c ∷ coins) in
    (
      record { sql = insert_sql columns rows (on_conflict c); params = insert_values (c ∷ coins) },
      (
        refl,
        omega (
          arith,
          marks_in-insert_sql columns rows (on_conflict c),
          columns_unmarked c,
          marks_in-join (map placeholder (c ∷ coins)),
          marks_of-placeholders (c ∷ coins),
          on_conflict_unmarked c,
          values,
        ),
        values,
      ),
    )

-- PostgreSQL counts the parameters of a statement in 16 bits.
abbrev pub max_params : ℕ
max_params = 65535

-- As many placeholders as parameters, and no more of them than PostgreSQL takes.
abbrev pub IsSendable : Statement → Type 0
IsSendable st = (marks_in st.sql ≡ length st.params) × (length st.params ≤ max_params)

-- The statement for a batch of the size that UpsertCoins takes.
pub statement-IsSendable :
    (batch : List Coins)
    → 0 < length batch
    → length batch ≤ 1000
    → (st : Statement) × (upsert_statement batch ≡ some st) × IsSendable st
statement-IsSendable [] h k = absurd (omega (arith, h))
statement-IsSendable (c ∷ coins) h k =
    let (st, fits) = statement_of c coins in (st, fits.0, (fits.1, omega (arith, fits.2, k)))

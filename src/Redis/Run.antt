-- ===== src/Redis/Run.antt =====
-- Programs over Redis commands, what a server makes of them, and what the documentation says.
use mathlib.Core.Path.{ap₂}
use token_price_proxy.Prelude.{ℕ, ◌≡◌, refl, ap, Bool, true, ◌∙◌}
use token_price_proxy.Redis.Commands.{Keyspace, Reply, Command, elapse}

-- A call of the client library, and what is done with the reply, an error among them.
pub data Prog (A : Type 0) : Type 1 where
  done : A → Prog A
  send : {X : Type 0} → Command X → (Reply X → Prog A) → Prog A

infixl 5 ◌>>=◌ ◌>>◌
abbrev pub ◌>>=◌ : {A B : Type 0} → Prog A → (A → Prog B) → Prog B
done a >>= f = f a
send c k >>= f = send c (λ r. k r >>= f)

abbrev pub ◌>>◌ : {A B : Type 0} → Prog A → Prog B → Prog B
m >> k = m >>= λ _. k

abbrev pub command : {X : Type 0} → Command X → Prog (Reply X)
command c = send c done

-- What a server is to the program: commands are carried out one at a time. While it is up and the
-- connection holds, a command has its documented reply and effect, and `wait`, the time that
-- passes between two of them, runs down the keys' times to live.
pub record Server : Type 1 where
  pub State : Type 0
  pub exec : {X : Type 0} → Command X → State → Reply X × State
  pub up : State → Bool
  pub store : State → Keyspace
  pub reply_up :
      {X : Type 0} (c : Command X) (s : State) → up s ≡ true → (exec c s).0 ≡ (c (store s)).0
  pub store_up :
      {X : Type 0} (c : Command X) (s : State) → up s ≡ true → store (exec c s).1 ≡ (c (store s)).1
  pub wait : ℕ → State → State
  pub store_wait : (t : ℕ) (s : State) → up s ≡ true → store (wait t s) ≡ elapse t (store s)
  pub wait_up : (t : ℕ) (s : State) → up s ≡ true → up (wait t s) ≡ true
  pub stays_up : {X : Type 0} (c : Command X) (s : State) → up s ≡ true → up (exec c s).1 ≡ true

unfoldable pub run : (r : Server) {A : Type 0} → Prog A → r.State → A × r.State
run r (done a) s = (a, s)
run r (send c k) s = let (x, s') = r.exec c s in run r (k x) s'

-- A program's documented run, on the keys alone.
abbrev pub eval : {A : Type 0} → Prog A → Keyspace → A × Keyspace
eval (done a) ks = (a, ks)
eval (send c k) ks = let (x, ks') = c ks in eval (k x) ks'

-- On a server that is up, a program returns and leaves what its documented run does.
pub run-eval :
    (r : Server) {A : Type 0} (p : Prog A) (s : r.State)
    → r.up s ≡ true
    → ((run r p s).0 ≡ (eval p (r.store s)).0) × (r.store (run r p s).1 ≡ (eval p (r.store s)).1)
unfolding run
run-eval r (done a) s h = (refl, refl)
run-eval r (send c k) s h =
    let ih = run-eval r (k (r.exec c s).0) (r.exec c s).1 (r.stays_up c s h) in
    (
      ih.0 ∙ ap₂ (λ x ks. (eval (k x) ks).0) (r.reply_up c s h) (r.store_up c s h),
      ih.1 ∙ ap₂ (λ x ks. (eval (k x) ks).1) (r.reply_up c s h) (r.store_up c s h),
    )

pub run-up :
    (r : Server) {A : Type 0} (p : Prog A) (s : r.State) → r.up s ≡ true → r.up (run r p s).1 ≡ true
unfolding run
run-up r (done a) s h = h
run-up r (send c k) s h = run-up r (k (r.exec c s).0) (r.exec c s).1 (r.stays_up c s h)

pub eval-bind :
    {A B : Type 0} (p : Prog A) (f : A → Prog B) (ks : Keyspace)
    → eval (p >>= f) ks ≡ eval (f (eval p ks).0) (eval p ks).1
eval-bind (done a) f ks = refl
eval-bind (send c k) f ks = eval-bind (k (c ks).0) f (c ks).1

pub run-bind :
    (r : Server) {A B : Type 0} (p : Prog A) (f : A → Prog B) (s : r.State)
    → run r (p >>= f) s ≡ run r (f (run r p s).0) (run r p s).1
unfolding run
run-bind r (done a) f s = refl
run-bind r (send c k) f s = run-bind r (k (r.exec c s).0) f (r.exec c s).1

-- A program that goes on with what another leaves.
pub eval-then :
    {A B : Type 0} (p : Prog A) (f : A → Prog B) (ks : Keyspace) {a : A} {ks' : Keyspace}
    → eval p ks ≡ (a, ks')
    → eval (p >>= f) ks ≡ eval (f a) ks'
eval-then p f ks e = eval-bind p f ks ∙ ap (λ q. eval (f q.0) q.1) e

-- The first command of a program has its reply put in.
pub eval-reply :
    {A X : Type 0} (c : Command X) (k : Reply X → Prog A) (ks : Keyspace) {x : Reply X}
    → (c ks).0 ≡ x
    → eval (send c k) ks ≡ eval (k x) (c ks).1
eval-reply c k ks h = ap (λ x. eval (k x) (c ks).1) h

-- The server that is always up and is its own documentation.
abbrev pub ideal : Server
ideal = record {
  State = Keyspace;
  exec = λ c ks. c ks;
  up = λ _. true;
  store = λ ks. ks;
  reply_up = λ c s h. refl;
  store_up = λ c s h. refl;
  wait = elapse;
  store_wait = λ t s h. refl;
  wait_up = λ t s h. refl;
  stays_up = λ c s h. refl;
}

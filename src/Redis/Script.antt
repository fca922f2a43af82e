-- ===== src/Redis/Script.antt =====
-- Lua scripts: commands that a server carries out in one step. A command that fails ends the
-- script with its error; what ran before stays done.
use token_price_proxy.Prelude.{◌≡◌, ap}
use token_price_proxy.Redis.Commands.{Reply, Reply.ok, Reply.err, Command, Keyspace}

abbrev pub pure : {A : Type 0} → A → Command A
pure a ks = (ok a, ks)

abbrev after : {A B : Type 0} → Reply A → (A → Command B) → Command B
after (ok a) f ks = f a ks
after err f ks = (err, ks)

infixl 5 ◌>>=◌ ◌>>◌
abbrev pub ◌>>=◌ : {A B : Type 0} → Command A → (A → Command B) → Command B
(c >>= f) ks = after (c ks).0 f (c ks).1

abbrev pub ◌>>◌ : {A B : Type 0} → Command A → Command B → Command B
c >> d = c >>= λ _. d

-- A script goes on with the reply of its first command.
pub bind-ok :
    {A B : Type 0} (c : Command A) (f : A → Command B) (ks : Keyspace) {a : A} {ks' : Keyspace}
    → c ks ≡ (ok a, ks')
    → (c >>= f) ks ≡ f a ks'
bind-ok c f ks e = ap (λ p. after p.0 f p.1) e

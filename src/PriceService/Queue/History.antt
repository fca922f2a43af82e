-- ===== src/PriceService/Queue/History.antt =====
-- Enqueuers and the drain of ProcessPriceRequests in any order: each script runs in one step.
use token_price_proxy.Prelude.{
  ℕ, ◌≡◌, sym, ap, ◌∙◌, String, false, some, List, [], ◌∷◌, ◌++◌, ◌==◌, inl, inr, All, Bool-cases,
  if◌then◌else◌, take, drop, take-append-drop,
}
use mathlib.Core.List.{append_assoc, append-nil}
use token_price_proxy.Prelude.Maps.{contains}
use token_price_proxy.Redis.Commands.{Reply, ok, err, Keyspace}
use token_price_proxy.PriceService.Queue.Scripts.{request_key, enqueue_script, drain_script}
use token_price_proxy.PriceService.Queue.Spec.{
  Requests, keys, infos, enter, drop-map, map-append_one,
}
use token_price_proxy.PriceService.Queue.Refines.{IsQueue, enqueue-refines, drain-refines}

-- A step of an enqueuer, or of the drain for at most `n` requests.
pub data Step : Type 0 where
  enqueue : (key info : String) → Step
  drain : (n : ℕ) → Step

abbrev pub KeyedStep : Step → Type 0
KeyedStep (enqueue key info) = request_key info ≡ some key
KeyedStep (drain n) = Unit

abbrev pub handed_out : Reply (List String) → List String
handed_out (ok requests) = requests
handed_out err = []

-- The requests that the steps enter into a queue of `l`.
abbrev pub accepted : List Step → Requests → List String
accepted [] l = []
accepted (enqueue key info ∷ steps) l =
    (if contains key (keys l) then [] else info ∷ []) ++ accepted steps (enter key info l)
accepted (drain n ∷ steps) l = accepted steps (drop n l)

module _ (set_key queue_key : String) where
  -- What the drains hand out, one after the other.
  unfoldable pub history : List Step → Keyspace → List String × Keyspace
  history [] ks = ([], ks)
  history (enqueue key info ∷ steps) ks =
      history steps (enqueue_script set_key queue_key key info ks).1
  history (drain n ∷ steps) ks =
      let (reply, ks') = drain_script set_key queue_key n ks in
      let (rest, ks'') = history steps ks' in (handed_out reply ++ rest, ks'')

infos-enter :
    (key info : String) (l : Requests)
    → infos (enter key info l) ≡ infos l ++ (if contains key (keys l) then [] else info ∷ [])
infos-enter key info l = elim (Bool-cases (contains key (keys l))) [
  | inl e ↦ rw e (sym (append-nil (infos l)))
  | inr e ↦ rw e (map-append_one (λ r. r.1) l (key, info))
]

-- Whatever order the steps come in, each request that is accepted is handed out once, in the order
-- of acceptance: what the drains hand out, followed by what still waits, is what waited before,
-- followed by what was accepted.
pub history-fifo :
    (set_key queue_key : String)
    → (set_key == queue_key) ≡ false
    → (steps : List Step) (l : Requests) (ks : Keyspace) → IsQueue set_key queue_key l ks
    → All KeyedStep steps
    → (left : Requests) × ((history set_key queue_key steps ks).0 ++ infos left
        ≡ infos l ++ accepted steps l)
      × IsQueue set_key queue_key left (history set_key queue_key steps ks).1
unfolding history
history-fifo set_key queue_key apart [] l ks h hs = (l, sym (append-nil (infos l)), h)
history-fifo set_key queue_key apart (enqueue key info ∷ steps) l ks h hs =
    let ks' = (enqueue_script set_key queue_key key info ks).1 in
    let new = (enqueue-refines set_key queue_key apart key info l ks h hs.0).1 in
    let (left, e, q) = history-fifo set_key queue_key apart steps (enter key info l) ks' new hs.1 in
    (
      left,
      e
          ∙ ap (λ (t : List String). t ++ accepted steps (enter key info l))
              (infos-enter key info l)
          ∙ append_assoc (infos l) _ _,
      q,
    )
history-fifo set_key queue_key apart (drain n ∷ steps) l ks h hs =
    let ks' = (drain_script set_key queue_key n ks).1 in
    let (out, new) = drain-refines set_key queue_key apart n l ks h in
    let (left, e, q) = history-fifo set_key queue_key apart steps (drop n l) ks' new hs.1 in
    (
      left,
      rw out (
          append_assoc (take n (infos l)) _ _
          ∙ ap (λ (t : List String). take n (infos l) ++ t) e
          ∙ ap (λ (t : List String). take n (infos l) ++ (t ++ accepted steps (drop n l)))
              (sym (drop-map (λ (r : String × String). r.1) n l))
          ∙ sym (append_assoc (take n (infos l)) (drop n (infos l)) _)
          ∙ ap (λ (t : List String). t ++ accepted steps (drop n l))
              (take-append-drop n (infos l))),
      q,
    )

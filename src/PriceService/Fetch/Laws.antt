-- ===== src/PriceService/Fetch/Laws.antt =====
-- An invariant of the world and of the prices, carried through batchQuery and the stages.
use token_price_proxy.Prelude.{
  ◌≡◌, refl, ap, String, Bool, true, false, ◌&&◌, Option, none, List, [], ◌∷◌, inl, inr, All,
  Bool-cases, arith,
}
use token_price_proxy.Prelude.Maps.{lookup, insert, delete, Values, Values-insert}
use token_price_proxy.Prelude.Panic.{Sure, Sure->>=, Sure-if}
use token_price_proxy.PriceService.{
  PriceResult, Source, Source.coingecko, Source.geckoterminal, Source.defillama,
  Source.coin_gecko_on_chain, Source.dodoex_route, Result, Result.ok, Result.err, Batch, Services,
  is_set, join_id,
}
use token_price_proxy.PriceService.Fetch.Plan.{or_empty, Sets}
use token_price_proxy.PriceService.Fetch.Query.{
  Asked, Work, Gathered, no_batch, index, no_price, delete_key, store_aliases, skip, push,
  gather_id, gather, store, store_all, receive, batch_query, stage, stages,
}
use token_price_proxy.PriceService.Fetch.Shape.{Dashed, part-Dashed, or_empty-Dashed, NoRoute}
use token_price_proxy.PriceService.Fetch.Ready.{Ready, chain_lem, address_lem, place_lem}

delete-none : (key : String) → delete key [] ≡ []
unfolding delete
delete-none key = refl

abbrev pub is_route : Source → Bool
is_route dodoex_route = true
is_route _ = false

-- The sources that a request may ask.
abbrev pub Admits : {W : Type 0} → Services W → Bool → Source → Type 0
Admits s exclude_route source =
    (s.prohibited_current source ≡ false) × ((exclude_route && is_route source) ≡ false)

abbrev pub Priced : (Option String → Type 0) → Result (List PriceResult) → Type 0
Priced Q (ok rs) = All (λ r. Q r.price) rs
Priced Q (err e) = Unit

-- The services keep `I`, and the prices that they answer, like the missing one, satisfy `Q`.
pub record Keeps {W : Type 0} (s : Services W) (exclude_route : Bool) (I : W → Type 0)
    (Q : Option String → Type 0) : Type 0 where
  pub keeps_coins : (ids : List String) (w : W) → I w → I (s.coins_by_id ids w).1
  pub keeps_prices :
      (source : Source) (b : Batch) (is_cache : Bool) (w : W)
      → Admits s exclude_route source
      → I w
      → I (s.current_prices source b is_cache w).1
        × Priced Q (s.current_prices source b is_cache w).0
  pub keeps_throttled : (key : String) (w : W) → I w → I (s.is_throttled key w).1
  pub keeps_throttle : (key status : String) (w : W) → I w → I (s.throttle key status w).1
  pub keeps_log : (chain_id address : String) (w : W) → I w → I (s.save_log chain_id address w)
  pub missing : Q none

module _ {W : Type 0} (s : Services W) (exclude_route : Bool) (I : W → Type 0)
    (Q : Option String → Type 0) (k : Keeps s exclude_route I Q) (q : Asked) (ready : Ready q) where
  abbrev pub FineResults : List (String × PriceResult) → Type 0
  FineResults results = Values (λ r. Q r.price) results

  abbrev pub Fine : Gathered W → Type 0
  Fine g = FineResults g.results × I g.world

  gather_id-Sure : (id : String) (g : Gathered W) → Fine g → Sure Fine (gather_id s q id g)
  unfolding gather_id skip push
  gather_id-Sure id g h =
      let w = (s.is_throttled id g.world).1 in
      let hw = k.keeps_throttled id g.world h.1 in
      let (c, ec) = chain_lem q id ready in
      let (a, ea) = address_lem q id ready in
      let (p, ep) = place_lem q id ready in
      Sure-if _ (s.is_throttled id g.world).0 _ _
        (λ _.
          rw (ec, ea)
            (
              _,
              refl,
              (
                Values-insert (λ r. Q r.price) id (no_price q c a (index q id)) g.results k.missing
                    h.0,
                k.keeps_log c a w hw,
              ),
            ))
        (λ _. rw ep (_, refl, (h.0, hw)))

  gather-Sure : (ids : List String) (g : Gathered W) → Fine g → Sure Fine (gather s q ids g)
  unfolding gather
  gather-Sure [] g h = (g, refl, h)
  gather-Sure (id ∷ ids) g h =
      Sure->>= Fine Fine (gather_id s q id g) _ (gather_id-Sure id g h)
        (λ g' h'. gather-Sure ids g' h')

  abbrev pub FineWork : Work W → Type 0
  FineWork work = FineResults work.results × I work.world × NoRoute exclude_route work.sets

  store_aliases-Sure :
      (r : PriceResult) (ids : List String) (results : List (String × PriceResult))
      → All Dashed ids
      → Q r.price
      → FineResults results
      → Sure FineResults (store_aliases r ids results)
  unfolding store_aliases
  store_aliases-Sure r [] results hd hr h = (results, refl, h)
  store_aliases-Sure r (id ∷ ids) results hd hr h =
      let (c, ec) = part-Dashed id 0 hd.0 (omega arith) in
      let (a, ea) = part-Dashed id 1 hd.0 (omega arith) in
      let r' : PriceResult = record r { chain_id = c; address = a } in
      rw (ec, ea)
        (store_aliases-Sure r' ids (insert id r' results) hd.1 hr
          (Values-insert (λ r. Q r.price) id r' results hr h))

  delete_key-NoRoute :
      (key : String) (sets : Sets)
      → NoRoute exclude_route sets
      → NoRoute exclude_route (delete_key key sets)
  unfolding delete_key
  delete_key-NoRoute key sets h e = rw (h e) (delete-none key)

  store-Sure :
      (r : PriceResult) (work : Work W)
      → Q r.price
      → FineWork work
      → Sure FineWork (store s q r work)
  unfolding store
  store-Sure r work hr h =
      let key = join_id r.chain_id r.address in
      let ids = or_empty (lookup key q.maps.return_coin_to) in
      Sure-if FineWork (is_set r.price) _ _
        (λ _.
          Sure->>= FineResults FineWork (store_aliases r ids (insert key r work.results)) _
            (store_aliases-Sure r ids (insert key r work.results)
              (or_empty-Dashed key q.maps.return_coin_to ready.4.1) hr
              (Values-insert (λ r. Q r.price) key r work.results hr h.0))
            (λ results hs. (_, refl, (hs, h.1, delete_key-NoRoute key work.sets h.2))))
        (λ _. (work, refl, h))

  store_all-Sure :
      (rs : List PriceResult) (work : Work W)
      → Priced Q (ok rs)
      → FineWork work
      → Sure FineWork (store_all s q rs work)
  unfolding store_all
  store_all-Sure [] work hr h = (work, refl, h)
  store_all-Sure (r ∷ rs) work hr h =
      Sure->>= FineWork FineWork (store s q r work) _ (store-Sure r work hr.0 h)
        (λ work' h'. store_all-Sure rs work' hr.1 h')

  receive-Sure :
      (answer : Result (List PriceResult) × W) (work : Work W)
      → Priced Q answer.0
      → I answer.1
      → FineWork work
      → Sure FineWork (receive s q answer work)
  unfolding receive
  receive-Sure (ok rs, w) work hr hw h =
      store_all-Sure rs (record work { world = w }) hr (h.0, hw, h.2)
  receive-Sure (err e, w) work hr hw h = (_, refl, (h.0, hw, h.2))

  batch_query-Sure :
      (source : Source) (ids : List String) (work : Work W)
      → (exclude_route && is_route source) ≡ false
      → FineWork work
      → Sure FineWork (batch_query s q source ids work)
  unfolding batch_query
  batch_query-Sure source ids work hs h =
      Sure-if FineWork (s.prohibited_current source) _ _ (λ _. (work, refl, h))
        (λ e.
          Sure->>= Fine FineWork (gather s q (s.order ids) _) _
            (gather-Sure (s.order ids)
              (record { batch = no_batch; results = work.results; world = work.world }) (h.0, h.1))
            (λ g hg.
              let asked = k.keeps_prices source g.batch q.is_cache g.world (e, hs) hg.1 in
              receive-Sure (s.current_prices source g.batch q.is_cache g.world)
                (record work { results = g.results; world = g.world }) asked.1 asked.0
                (hg.0, hg.1, h.2)))

  stage-Sure :
      (source : Source) (ids : List String) (work : Work W)
      → (exclude_route && is_route source) ≡ false
      → FineWork work
      → Sure FineWork (stage s q source ids work)
  unfolding stage
  stage-Sure source [] work hs h = (work, refl, h)
  stage-Sure source (id ∷ ids) work hs h = batch_query-Sure source (id ∷ ids) work hs h

  -- The last stage: no id is left for the route service when the request excludes it.
  route-Sure :
      (work : Work W) → FineWork work → Sure FineWork (stage s q dodoex_route work.sets.dodoex work)
  unfolding stage
  route-Sure work h = elim (Bool-cases exclude_route) [
    | inl e ↦ (work, ap (λ ids. stage s q dodoex_route ids work) (h.2 e), h)
    | inr e ↦ stage-Sure dodoex_route work.sets.dodoex work (ground (arith, e)) h
  ]

  pub stages-Sure : (work : Work W) → FineWork work → Sure FineWork (stages s q work)
  unfolding stages
  stages-Sure work h =
      let go =
        λ (source : Source) (ids : List String) (work : Work W)
            (hs : (exclude_route && is_route source) ≡ false) (h : FineWork work).
          stage-Sure source ids work hs h in
      let bind = Sure->>= FineWork FineWork in
      bind _ _ (go coingecko _ work (ground arith) h) (λ a ha.
        bind _ _ (go geckoterminal _ a (ground arith) ha) (λ b hb.
          bind _ _ (go defillama _ b (ground arith) hb) (λ c hc.
            bind _ _ (go coingecko _ c (ground arith) hc) (λ d hd.
              bind _ _ (go defillama _ d (ground arith) hd) (λ e he.
                bind _ _ (go geckoterminal _ e (ground arith) he)
                  (λ f hf. bind _ _ (go coin_gecko_on_chain _ f (ground arith) hf) route-Sure))))))

-- ===== src/PriceService/Dated/Laws.antt =====
-- batchQueryHistorical and its calls stay in range, and keep a property of the prices.
use token_price_proxy.Prelude.{
  ℕ, ◌≤◌, ◌<◌, ◌≡◌, refl, String, false, Option, none, some, List, [], ◌∷◌, All, length, get_elem?,
  get_elem?-length, arith,
}
use token_price_proxy.Prelude.Maps.{lookup, insert, Values, Values-insert}
use token_price_proxy.Prelude.Panic.{Sure, Sure->>=, Sure-if}
use token_price_proxy.PriceService.{
  PriceResult, Coin, Source, Source.coingecko, Source.geckoterminal, Source.defillama, Result,
  Result.ok, Result.err, Batch, is_set, join_id,
}
use token_price_proxy.PriceService.Fetch.Plan.{or_empty}
use token_price_proxy.PriceService.Fetch.Query.{no_batch, index}
use token_price_proxy.PriceService.Fetch.Shape.{
  Dashed, join_id-Dashed, part-Dashed, or_empty-Dashed,
}
use token_price_proxy.PriceService.Fetch.Ready.{Ready, index_lem, chain_lem, address_lem, place_lem}
use token_price_proxy.PriceService.Fetch.Laws.{Priced}
use token_price_proxy.PriceService.Dated.{
  DatedServices, dated_id, dated_ids, DatedSets, fill_sets, DatedAsked, DatedWork, DatedGathered,
  no_dated_price, store_shared, skip_dated, push_dated, gather_dated_id, gather_dated, store_dated,
  store_all_dated, receive_dated, batch_query_historical, dated_stage, dated_stages,
}

-- The prices that the sources answer, but for the prohibited ones, and the missing price satisfy `Q`.
pub record Answers {W : Type 0} (s : DatedServices W) (Q : Option String → Type 0) : Type 0 where
  pub priced :
      (source : Source) (b : Batch) (times : List ℕ) (w : W)
      → s.prohibited_historical source ≡ false
      → Priced Q (s.historical_prices source b times w).0
  pub missing : Q none

-- What keeps batchQueryHistorical in range.
abbrev pub DatedReady : DatedAsked → Type 0
DatedReady q =
    Ready q.base
    × Values (λ i. i < length q.times) q.base.index_of
    × Values (λ i. i < length q.dates) q.base.index_of
    × (0 < length q.times)
    × (0 < length q.dates)

pub dated_ids-Sure :
    (show : ℕ → String) (chain_ids lower : List String) (times : List ℕ)
    → length lower ≤ length chain_ids
    → length lower ≤ length times
    → Sure
        (λ ids. (length ids ≡ length lower) × All Dashed ids)
        (dated_ids show chain_ids lower times)
unfolding dated_ids
dated_ids-Sure show chain_ids [] times h k = ([], refl, (refl, _))
dated_ids-Sure show [] (a ∷ lower) times h k = ground arith
dated_ids-Sure show (c ∷ chain_ids) (a ∷ lower) [] h k = ground arith
dated_ids-Sure show (c ∷ chain_ids) (a ∷ lower) (t ∷ times) h k =
    Sure->>= _ _ _ _ (dated_ids-Sure show chain_ids lower times (omega arith) (omega arith))
      (λ ids p. (_, refl, (omega (arith, p.0), (join_id-Dashed (join_id c a) (show t), p.1))))

pub fill_sets-Sure :
    (coins : List (String × Coin)) (ids : List String) (sets : DatedSets)
    → All Dashed ids
    → (sets' : DatedSets) × (fill_sets coins ids sets ≡ some sets')
unfolding fill_sets
fill_sets-Sure coins [] sets h = (sets, refl)
fill_sets-Sure coins (id ∷ ids) sets h =
    let (chain, e) = part-Dashed id 0 h.0 (omega arith) in
    let (address, e') = part-Dashed id 1 h.0 (omega arith) in
    rw (e, e') (fill_sets-Sure coins ids _ h.1)

module _ {W : Type 0} (s : DatedServices W) (Q : Option String → Type 0) (answers : Answers s Q)
    (q : DatedAsked) (ready : DatedReady q) where
  time_lem : (id : String) → (t : ℕ) × (get_elem? q.times (index q.base id) ≡ some t)
  time_lem id = get_elem?-length q.times (index q.base id) (index_lem q.base id _ ready.1 ready.3)

  date_lem : (id : String) → (t : String) × (get_elem? q.dates (index q.base id) ≡ some t)
  date_lem id = get_elem?-length q.dates (index q.base id) (index_lem q.base id _ ready.2 ready.4)

  abbrev FineResults : List (String × PriceResult) → Type 0
  FineResults results = Values (λ r. Q r.price) results

  abbrev Fine : DatedGathered W → Type 0
  Fine g = FineResults g.results

  gather_dated_id-Sure :
      (id : String) (g : DatedGathered W) → Fine g → Sure Fine (gather_dated_id s q id g)
  unfolding gather_dated_id skip_dated push_dated
  gather_dated_id-Sure id g h =
      let (c, ec) = chain_lem q.base id ready.0 in
      let (a, ea) = address_lem q.base id ready.0 in
      let (p, ep) = place_lem q.base id ready.0 in
      let (t, et) = time_lem id in
      let (d, ed) = date_lem id in
      Sure-if _ (s.is_throttled id g.world).0 _ _
        (λ _.
          rw (ec, ea, ed, et)
            (
              _,
              refl,
              Values-insert (λ r. Q r.price) id (no_dated_price q.base c a d (index q.base id))
                  g.results answers.missing h,
            ))
        (λ _. rw (ep, et) (_, refl, h))

  gather_dated-Sure :
      (ids : List String) (g : DatedGathered W) → Fine g → Sure Fine (gather_dated s q ids g)
  unfolding gather_dated
  gather_dated-Sure [] g h = (g, refl, h)
  gather_dated-Sure (id ∷ ids) g h =
      Sure->>= Fine Fine (gather_dated_id s q id g) _ (gather_dated_id-Sure id g h)
        (λ g' h'. gather_dated-Sure ids g' h')

  abbrev pub FineDated : DatedWork W → Type 0
  FineDated work = FineResults work.results

  store_shared-Sure :
      (r : PriceResult) (ids : List String) (results : List (String × PriceResult))
      → All Dashed ids
      → Q r.price
      → FineResults results
      → Sure FineResults (store_shared r ids results)
  unfolding store_shared
  store_shared-Sure r [] results hd hr h = (results, refl, h)
  store_shared-Sure r (id ∷ ids) results hd hr h =
      let (c, ec) = part-Dashed id 0 hd.0 (omega arith) in
      let (a, ea) = part-Dashed id 1 hd.0 (omega arith) in
      let r' : PriceResult = record r { chain_id = c; address = a } in
      rw (ec, ea)
        (store_shared-Sure r' ids (insert (join_id id r.time_stamp) r' results) hd.1 hr
          (Values-insert (λ r. Q r.price) (join_id id r.time_stamp) r' results hr h))

  store_dated-Sure :
      (r : PriceResult) (work : DatedWork W)
      → Q r.price
      → FineDated work
      → Sure FineDated (store_dated s q r work)
  unfolding store_dated
  store_dated-Sure r work hr h =
      let key = dated_id r.chain_id r.address r.time_stamp in
      let of = join_id r.chain_id r.address in
      let ids = or_empty (lookup of q.base.maps.return_coin_to) in
      Sure-if FineDated (is_set r.price) _ _
        (λ _.
          Sure->>= FineResults FineDated (store_shared r ids (insert key r work.results)) _
            (store_shared-Sure r ids (insert key r work.results)
              (or_empty-Dashed of q.base.maps.return_coin_to ready.0.4.1) hr
              (Values-insert (λ r. Q r.price) key r work.results hr h))
            (λ results hs. (_, refl, hs)))
        (λ _. (work, refl, h))

  store_all_dated-Sure :
      (rs : List PriceResult) (work : DatedWork W)
      → Priced Q (ok rs)
      → FineDated work
      → Sure FineDated (store_all_dated s q rs work)
  unfolding store_all_dated
  store_all_dated-Sure [] work hr h = (work, refl, h)
  store_all_dated-Sure (r ∷ rs) work hr h =
      Sure->>= FineDated FineDated (store_dated s q r work) _ (store_dated-Sure r work hr.0 h)
        (λ work' h'. store_all_dated-Sure rs work' hr.1 h')

  receive_dated-Sure :
      (answer : Result (List PriceResult) × W) (work : DatedWork W)
      → Priced Q answer.0
      → FineDated work
      → Sure FineDated (receive_dated s q answer work)
  unfolding receive_dated
  receive_dated-Sure (ok rs, w) work hr h = store_all_dated-Sure rs (record work { world = w }) hr h
  receive_dated-Sure (err e, w) work hr h = (_, refl, h)

  dated_stage-Sure :
      (source : Source) (ids : List String) (work : DatedWork W)
      → FineDated work
      → Sure FineDated (dated_stage s q source ids work)
  unfolding dated_stage batch_query_historical
  dated_stage-Sure source [] work h = (work, refl, h)
  dated_stage-Sure source (id ∷ ids) work h =
      Sure-if FineDated (s.prohibited_historical source) _ _ (λ _. (work, refl, h))
        (λ e.
          Sure->>= Fine FineDated (gather_dated s q (s.order (id ∷ ids)) _) _
            (gather_dated-Sure (s.order (id ∷ ids))
              (record {
                batch = no_batch;
                batch_times = [];
                results = work.results;
                world = work.world;
              })
              h)
            (λ g hg.
              receive_dated-Sure (s.historical_prices source g.batch g.batch_times g.world)
                (record work { results = g.results; world = g.world })
                (answers.priced source g.batch g.batch_times g.world e) hg))

  pub dated_stages-Sure :
      (work : DatedWork W) → FineDated work → Sure FineDated (dated_stages s q work)
  unfolding dated_stages
  dated_stages-Sure work h =
      let bind = Sure->>= FineDated FineDated in
      bind _ _ (dated_stage-Sure coingecko _ work h) (λ a ha.
        bind _ _ (dated_stage-Sure geckoterminal _ a ha) (λ b hb.
          bind _ _ (dated_stage-Sure defillama _ b hb) (λ c hc.
            bind _ _ (dated_stage-Sure coingecko _ c hc) (λ d hd.
              bind _ _ (dated_stage-Sure defillama _ d hd)
                (λ e he. dated_stage-Sure geckoterminal _ e he)))))

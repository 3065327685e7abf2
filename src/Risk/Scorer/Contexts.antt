-- ===== src/Risk/Scorer/Contexts.antt =====
-- What SymbolScorer keeps by symbol, timeframe and direction, after any calls.
use tv_webhook_trader.Shared.{
  ℕ, ◌+◌, ◌≡◌, refl, ap, sym, ◌∙◌, subst, false, if◌then◌else◌, List, [], ◌∷◌, ◌++◌, Option, none,
  some, Text, text_eq, text_eq_iff, leb, ℤ, pos, ◌-ℤ◌, lookup, lookup-insert, get_or, length,
  length-append, arith, Bool-cases, inl, inr,
}
use mathlib.Core.Option
use tv_webhook_trader.Shared.Double.{Double, nought, IsStrict, rounded, clamp_of_bounds}
use tv_webhook_trader.Risk.Score.{SymbolScore, blank_score}
use tv_webhook_trader.Execution.Trades.{TradeRecord}
use tv_webhook_trader.Risk.Scorer.{
  ScorerConfig, SymbolScorer, compute_context_key, assign_tier, size_mult_for, max_lev_for,
  get_context_score, get_best_score, get_score, if_enough, or_score, RealizedAccumulator, shrunk,
  per,
}
use tv_webhook_trader.Risk.Scorer.Recording.{
  with_context_trade, record_context_trade, with_realized, record_realized_trade, accumulated,
  new_accumulator,
}
use tv_webhook_trader.Risk.Scorer.Scoring.{rescore_all}
use tv_webhook_trader.Risk.Scorer.Calls.{
  ContextTrade, Call, context, realized, rescore, key_of, with_own, own_trades, count_won,
  count_won-append, total_of, total_of-append, answer, answer_all,
}
use tv_webhook_trader.Risk.Scorer.Realized.{lookup-put_realized}

module _ {F : Type 0} ⦃d : Double F⦄ where
  -- The entry of a key and the trades that were recorded under it.
  pub record IsKept (c : ScorerConfig F) (own : List (ContextTrade F)) (x : SymbolScore F)
      : Type 0 where
    pub counted : x.total_trades ≡ length own
    pub won : x.wins ≡ count_won own
    pub lost : x.losses ≡ pos x.total_trades -ℤ pos x.wins
    pub summed : x.total_pnl ≡ total_of nought own
    pub not_below : d.lt x.composite_score nought ≡ false
    pub not_above : d.lt (d.decimal 100 0) x.composite_score ≡ false
    pub graded : x.tier ≡ assign_tier c x.composite_score
    pub sized : x.size_multiplier ≡ size_mult_for c x.tier
    pub levered : x.max_leverage ≡ max_lev_for c x.tier

  -- No entry, where there was no trade.
  abbrev pub IsKeptAt : ScorerConfig F → List (ContextTrade F) → Option (SymbolScore F) → Type 0
  IsKeptAt c own none = own ≡ []
  IsKeptAt c own (some x) = IsKept c own x

  with_realized-IsKept :
      (c : ScorerConfig F) (own : List (ContextTrade F)) (x : SymbolScore F)
      (acc : RealizedAccumulator F)
      → IsKept c own x
      → IsKept c own (with_realized acc x)
  unfolding with_realized
  with_realized-IsKept c own x acc v = record {
    counted = v.counted;
    won = v.won;
    lost = v.lost;
    summed = v.summed;
    not_below = v.not_below;
    not_above = v.not_above;
    graded = v.graded;
    sized = v.sized;
    levered = v.levered;
  }

  with_context_trade-IsKept :
      IsStrict d
      → (c : ScorerConfig F) (time key : Text) (own : List (ContextTrade F)) (t : ContextTrade F)
        (o : Option (SymbolScore F))
      → IsKeptAt c own o
      → IsKept c
          (own ++ t ∷ [])
          (with_context_trade c time key t.pnl t.is_win (get_or blank_score o))
  unfolding with_context_trade count_won total_of
  with_context_trade-IsKept laws c time key own t o v =
      let x = get_or blank_score o in
      let n = x.total_trades + 1 in
      let wins = if t.is_win then x.wins + 1 else x.wins in
      let bounds =
        clamp_of_bounds laws (rounded (shrunk (per (d.of_int (pos wins)) n) n) (d.decimal 10 0))
          nought (d.decimal 100 0) (laws.nought_least 100 0) in
      let before = before_lem o v in
      record {
        counted = omega (arith, before.0, length-append own (t ∷ []));
        won = ground (arith, before.1, count_won-append own t);
        lost = refl;
        summed = ap (λ s. d.add s t.pnl) before.2 ∙ sym (total_of-append nought own t);
        not_below = bounds.0;
        not_above = bounds.1;
        graded = refl;
        sized = refl;
        levered = refl;
      }
    where
      before_lem :
          (o : Option (SymbolScore F))
          → IsKeptAt c own o
          → let x = get_or blank_score o in
            (x.total_trades ≡ length own)
            × (x.wins ≡ count_won own)
            × (x.total_pnl ≡ total_of nought own)
      before_lem none e = rw e (refl, refl, refl)
      before_lem (some x) v = (v.counted, v.won, v.summed)

  record_context_trade-IsKeptAt :
      IsStrict d
      → (k time : Text) (t : ContextTrade F) (own : List (ContextTrade F)) (s : SymbolScorer F)
      → IsKeptAt s.config own (lookup k s.context_scores)
      → IsKeptAt s.config (with_own k t own) (
          lookup k
            (record_context_trade time t.symbol t.timeframe t.direction t.pnl t.is_win
              s).context_scores)
  unfolding record_context_trade
  record_context_trade-IsKeptAt laws k time t own s v =
      let c = s.config in
      let m = s.context_scores in
      let new = λ (j : Text).
        with_context_trade c time j t.pnl t.is_win (get_or blank_score (lookup j m)) in
      elim (Bool-cases (text_eq (key_of t) k)) [
        | inl own_key ↦
            let same : key_of t ≡ k = (text_eq_iff (key_of t) k).0 own_key in
            rw (lookup-insert (key_of t) k (new (key_of t)) m, own_key)
              (rw same (with_context_trade-IsKept laws c time k own t (lookup k m) v))
        | inr other ↦ rw (lookup-insert (key_of t) k (new (key_of t)) m, other) v
      ]

  map-with_realized-IsKeptAt :
      (c : ScorerConfig F) (own : List (ContextTrade F)) (acc : RealizedAccumulator F)
      (o : Option (SymbolScore F))
      → IsKeptAt c own o
      → IsKeptAt c own (Option.map (with_realized acc) o)
  map-with_realized-IsKeptAt c own acc none v = v
  map-with_realized-IsKeptAt c own acc (some x) v = with_realized-IsKept c own x acc v

  record_realized_trade-IsKeptAt :
      (k symbol tf dir : Text) (gross fee rr : F) (own : List (ContextTrade F)) (s : SymbolScorer F)
      → IsKeptAt s.config own (lookup k s.context_scores)
      → IsKeptAt s.config own
          (lookup k (record_realized_trade symbol tf dir gross fee rr s).context_scores)
  unfolding record_realized_trade
  record_realized_trade-IsKeptAt k symbol tf dir gross fee rr own s v =
      let key = compute_context_key symbol tf dir in
      let m = s.context_scores in
      let acc =
        accumulated gross fee rr (get_or new_accumulator (lookup key s.realized_accumulators)) in
      rw (lookup-put_realized key k acc m) (elim (Bool-cases (text_eq key k)) [
        | inl same ↦ rw same (map-with_realized-IsKeptAt s.config own acc (lookup k m) v)
        | inr other ↦ rw other v
      ])

  rescore_all-context_scores :
      (now : ℕ) (time : Text) (ts : List (TradeRecord F)) (s : SymbolScorer F)
      → ((rescore_all now time ts s).context_scores ≡ s.context_scores)
        × ((rescore_all now time ts s).config ≡ s.config)
  unfolding rescore_all
  rescore_all-context_scores now time ts s = ground arith

  answer_all-IsKeptAt :
      IsStrict d
      → (k : Text) (calls : List (Call F)) (own : List (ContextTrade F)) (s : SymbolScorer F)
      → IsKeptAt s.config own (lookup k s.context_scores)
      → IsKeptAt s.config (own_trades k own calls) (lookup k (answer_all calls s).context_scores)
  unfolding answer_all own_trades answer record_context_trade record_realized_trade
  answer_all-IsKeptAt laws k [] own s v = v
  answer_all-IsKeptAt laws k (context time t ∷ cs) own s v =
      answer_all-IsKeptAt laws k cs (with_own k t own) (answer (context time t) s)
        (record_context_trade-IsKeptAt laws k time t own s v)
  answer_all-IsKeptAt laws k (realized symbol tf dir gross fee rr ∷ cs) own s v =
      answer_all-IsKeptAt laws k cs own (answer (realized symbol tf dir gross fee rr) s)
        (record_realized_trade-IsKeptAt k symbol tf dir gross fee rr own s v)
  answer_all-IsKeptAt laws k (rescore now time ts ∷ cs) own s v =
      let kept = rescore_all-context_scores now time ts s in
      let after = rescore_all now time ts s in
      subst (λ c. IsKeptAt c (own_trades k own cs) (lookup k (answer_all cs after).context_scores))
        kept.1 (answer_all-IsKeptAt laws k cs own after (rw (kept.0, kept.1) v))

  -- After any calls on a scorer without context scores, the score of a symbol, timeframe and direction
  -- is that of the trades that were recorded under them, and there is none without trades: their number,
  -- the wins and the losses, the sum of the results in order, and a composite score that is not outside
  -- 0 to 100 and from which its tier, its size multiplier and its leverage limit come. This holds of
  -- every IEEE double.
  pub answer_all-get_context_score :
      IsStrict d
      → (calls : List (Call F)) (s : SymbolScorer F) (symbol tf dir : Text) → s.context_scores ≡ []
      → IsKeptAt s.config
          (own_trades (compute_context_key symbol tf dir) [] calls)
          (get_context_score symbol tf dir (answer_all calls s))
  unfolding get_context_score lookup
  answer_all-get_context_score laws calls s symbol tf dir e =
      answer_all-IsKeptAt laws (compute_context_key symbol tf dir) calls [] s (rw e refl)

  -- What the engine decides by.
  abbrev pub decision_of : SymbolScore F → Text × F × ℤ × F × ℕ
  decision_of x = (x.tier, x.size_multiplier, x.max_leverage, x.composite_score, x.total_trades)

  decision_of-with_realized :
      (acc : RealizedAccumulator F) (o y : Option (SymbolScore F))
      → Option.map decision_of (or_score (if_enough (Option.map (with_realized acc) o)) y)
        ≡ Option.map decision_of (or_score (if_enough o) y)
  unfolding with_realized if_enough or_score
  decision_of-with_realized acc none y = refl
  decision_of-with_realized acc (some x) y = elim (Bool-cases (leb 5 x.total_trades)) [
    | inl e ↦ rw e refl
    | inr e ↦ rw e refl
  ]

  -- Realized figures are only watched: whatever is recorded, the best score of every symbol, timeframe
  -- and direction keeps its tier, size multiplier, leverage limit, composite score and number of trades.
  pub record_realized_trade-get_best_score :
      (symbol tf dir : Text) (gross fee rr : F) (s : SymbolScorer F) (sym t side : Text)
      → Option.map decision_of
          (get_best_score sym t side (record_realized_trade symbol tf dir gross fee rr s))
        ≡ Option.map decision_of (get_best_score sym t side s)
  unfolding get_best_score get_context_score get_score record_realized_trade
  record_realized_trade-get_best_score symbol tf dir gross fee rr s sym t side =
      let key = compute_context_key symbol tf dir in
      let k = compute_context_key sym t side in
      let m = s.context_scores in
      let acc =
        accumulated gross fee rr (get_or new_accumulator (lookup key s.realized_accumulators)) in
      rw (lookup-put_realized key k acc m) (elim (Bool-cases (text_eq key k)) [
        | inl same ↦ rw same (decision_of-with_realized acc (lookup k m) (lookup sym s.scores))
        | inr other ↦ rw other refl
      ])

-- ===== src/Risk/Scorer/Figures.antt =====
-- What the score of a symbol says of its trades.
use tv_webhook_trader.Shared.{
  ℕ, ◌+◌, ◌≤◌, ◌-◌, ◌≡◌, refl, ap, Bool, true, false, not, List, [], ◌∷◌, Text, map, pos, select,
  length, length-select-le, group, lookup, insert, get_or, arith, ◌∙◌, if◌then◌else◌, codes,
  is_empty, has_part, has_text,
}
use tv_webhook_trader.Shared.Double.{Double, nought, IsStrict, clamp_of, clamp_of_bounds, rounded}
use tv_webhook_trader.Risk.Score.{SymbolScore, TfSubScore}
use mathlib.Core.Option
use tv_webhook_trader.Execution.Trades.{TradeRecord, count_wins, sum_pnl}
use tv_webhook_trader.Risk.Scorer.Rescore.{if_any, lookup-map, lookup-group}
use tv_webhook_trader.Risk.Scorer.{ScorerConfig, assign_tier, size_mult_for, max_lev_for, per}
use tv_webhook_trader.Risk.Scorer.Scoring.{
  score_symbol, is_win, is_reverse, tf_name, push_back, sub_score, tf_scores_of, reverse_verdict,
  base_composite, raw_figures,
}

module _ {A : Type 0} (p : A → Bool) where
  length-split :
      (xs : List A) → length (select p xs) + length (select (λ x. not (p x)) xs) ≡ length xs
  unfolding select
  length-split [] = omega arith
  length-split (x ∷ xs) = ground (arith, length-split xs)

  length-select-select :
      (q : A → Bool) (xs : List A) → length (select p (select q xs)) ≤ length (select p xs)
  unfolding select
  length-select-select q [] = omega arith
  length-select-select q (x ∷ xs) = ground (arith, length-select-select q xs)

module _ {F : Type 0} where
  -- The trades that the groups hold together.
  grouped : List (Text × List (TradeRecord F)) → ℕ
  grouped [] = 0
  grouped ((_, l) ∷ m) = length l + grouped m

  length-push_back :
      (t : TradeRecord F) (l : List (TradeRecord F)) → length (push_back t l) ≡ length l + 1
  length-push_back t [] = omega arith
  length-push_back t (x ∷ l) = omega (arith, length-push_back t l)

  grouped-insert :
      (k : Text) (t : TradeRecord F) (m : List (Text × List (TradeRecord F)))
      → grouped (insert k (push_back t (get_or [] (lookup k m))) m) ≡ grouped m + 1
  unfolding grouped insert lookup
  grouped-insert k t [] = omega arith
  grouped-insert k t ((j, l) ∷ m) = ground (arith, grouped-insert k t m, length-push_back t l)

  grouped-group :
      (key : TradeRecord F → Text) (m : List (Text × List (TradeRecord F)))
      (ts : List (TradeRecord F))
      → grouped (group key push_back [] m ts) ≡ grouped m + length ts
  unfolding group
  grouped-group key m [] = omega arith
  grouped-group key m (t ∷ ts) = omega (
    arith,
    grouped-group key (insert (key t) (push_back t (get_or [] (lookup (key t) m))) m) ts,
    grouped-insert (key t) t m,
  )

module _ {F : Type 0} ⦃d : Double F⦄ where
  -- The trades of all timeframes together.
  pub sum_trades : List (Text × TfSubScore F) → ℕ
  sum_trades [] = 0
  sum_trades ((_, s) ∷ ss) = s.trades + sum_trades ss

  sum_trades-map :
      (m : List (Text × List (TradeRecord F)))
      → sum_trades (map (λ g. (g.0, sub_score g.1)) m) ≡ grouped m
  unfolding sum_trades grouped sub_score
  sum_trades-map [] = refl
  sum_trades-map ((k, l) ∷ m) = omega (arith, sum_trades-map m)

  sum_trades-tf_scores_of : (ts : List (TradeRecord F)) → sum_trades (tf_scores_of ts) ≡ length ts
  unfolding tf_scores_of grouped
  sum_trades-tf_scores_of ts =
      omega (arith, sum_trades-map (group tf_name push_back [] [] ts), grouped-group tf_name [] ts)

  reverse_verdict-allowed :
      (c : ScorerConfig F) (n wins : ℕ) (wr : F) → (reverse_verdict c n wins wr).1 ≡ true → 1 ≤ wins
  unfolding reverse_verdict
  reverse_verdict-allowed c n wins wr h = ground arith

  length-count_wins : (ts : List (TradeRecord F)) → length (select is_win ts) ≡ count_wins ts
  unfolding select count_wins
  length-count_wins [] = refl
  length-count_wins (t ∷ ts) = ground (arith, length-count_wins ts)

  -- The timeframe under which a trade counts.
  abbrev pub timeframe_name : TradeRecord F → Text
  timeframe_name t = if is_empty t.timeframe then codes "unknown" else t.timeframe

  abbrev pub is_reversal : TradeRecord F → Bool
  is_reversal t = has_part (codes "REVERSE") t.exit_reason

  -- The figures of the trades of one timeframe.
  abbrev pub tally : List (TradeRecord F) → TfSubScore F
  tally own = record {
    trades = length own;
    wins = count_wins own;
    win_rate = per (d.of_int (pos (count_wins own))) (length own);
    pnl = sum_pnl nought own;
  }

  lookup-tf_scores_of :
      (ts : List (TradeRecord F)) (tf : Text)
      → lookup tf (tf_scores_of ts)
        ≡ Option.map tally (if_any (select (has_text timeframe_name tf) ts))
  unfolding tf_scores_of sub_score lookup
  lookup-tf_scores_of ts tf =
      lookup-map (λ k own. sub_score own) tf (group tf_name push_back [] [] ts)
      ∙ ap (Option.map sub_score) (lookup-group tf_name tf [] [] ts refl)

  -- What holds of every score that a rescoring makes.
  pub record IsAccount (c : ScorerConfig F) (ts : List (TradeRecord F)) (x : SymbolScore F)
      : Type 0 where
    pub all_counted : x.total_trades ≡ length ts
    pub won : x.wins ≡ count_wins ts
    pub of_timeframe :
        (tf : Text)
        → lookup tf x.tf_scores ≡ Option.map tally (if_any (select (has_text timeframe_name tf) ts))
    pub reversals : x.rev_trades ≡ length (select is_reversal ts)
    pub reversals_won : x.rev_wins ≡ count_wins (select is_reversal ts)
    pub won_or_lost : x.losses ≡ pos (x.total_trades - x.wins)
    pub wins_within : x.wins ≤ x.total_trades
    pub by_timeframe : sum_trades x.tf_scores ≡ x.total_trades
    pub reversed_within : x.rev_wins ≤ x.wins
    pub reversed_won : x.rev_allowed ≡ true → 1 ≤ x.rev_wins
    pub composite : F
    pub shown : x.composite_score ≡ rounded composite (d.decimal 10 0)
    pub not_below : d.lt composite nought ≡ false
    pub not_above : d.lt (d.decimal 100 0) composite ≡ false
    pub graded : x.tier ≡ assign_tier c composite
    pub sized : x.size_multiplier ≡ size_mult_for c x.tier
    pub levered : x.max_leverage ≡ max_lev_for c x.tier

  -- If doubles are strictly ordered: the score of any trades counts each of them once, as a win exactly if
  -- it earned more than nought and else as a loss. Under each timeframe it keeps the number, the wins, the
  -- share of wins and the sum of just the trades of that timeframe, those without one under "unknown". It
  -- counts the trades that a reversal closed and the wins among them, and allows reversals only if one
  -- of them won. Tier, size multiplier and leverage limit come from a composite score not outside 0 to
  -- 100, of which the score shows the rounded value.
  pub score_symbol-IsAccount :
      IsStrict d
      → (c : ScorerConfig F) (time symbol : Text) (ts : List (TradeRecord F)) (signals : ℕ)
      → IsAccount c ts (score_symbol c time symbol ts signals)
  unfolding score_symbol
  score_symbol-IsAccount laws c time symbol ts signals =
      let split = length-split is_win ts in
      let reversed = select is_reverse ts in
      let rev_n = length reversed in
      let rev_wins = length (select is_win reversed) in
      let rev_wr = per (d.of_int (pos rev_wins)) rev_n in
      let raw =
        d.add (base_composite c (raw_figures ts signals) (length ts))
          (reverse_verdict c rev_n rev_wins rev_wr).0 in
      let bounds = clamp_of_bounds laws raw nought (d.decimal 100 0) (laws.nought_least 100 0) in
      record {
        all_counted = refl;
        won = length-count_wins ts;
        of_timeframe = lookup-tf_scores_of ts;
        reversals = refl;
        reversals_won = length-count_wins reversed;
        won_or_lost = ap pos (omega (arith, split));
        wins_within = length-select-le is_win ts;
        by_timeframe = sum_trades-tf_scores_of ts;
        reversed_within = length-select-select is_win is_reverse ts;
        reversed_won = reverse_verdict-allowed c rev_n rev_wins rev_wr;
        composite = clamp_of raw nought (d.decimal 100 0);
        shown = refl;
        not_below = bounds.0;
        not_above = bounds.1;
        graded = refl;
        sized = refl;
        levered = refl;
      }

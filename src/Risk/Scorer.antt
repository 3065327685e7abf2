-- ===== src/Risk/Scorer.antt =====
-- include/risk/symbol_scorer.hpp: class SymbolScorer, which grades symbols by their trades. Every
-- method is one critical section under `m_mtx`. The clock is an argument, as nanoseconds and as the
-- text of current_iso_time; the constructor, the two score files and the JSON for the dashboard are left
-- out. What is recorded trade by trade is in Recording, the score of a symbol in Scoring.
use tv_webhook_trader.Shared.{
  ℕ, ◌+◌, ◌-◌, Bool, true, false, not, ◌&&◌, ◌==◌, ltb, leb, if◌then◌else◌, List, [], ◌∷◌, ◌++◌,
  Option, none, some, Text, codes, text_eq, is_empty, has_part, map, ℤ, pos, ◌-ℤ◌, ◌*ℤ◌, leb_ℤ,
  lookup, insert, get_or, group, select, length,
}
use tv_webhook_trader.Shared.Double.{Double, nought, min_of, clamp_of, rounded}
use tv_webhook_trader.Risk.Score.{SymbolScore, TfSubScore, blank_score}
use tv_webhook_trader.Execution.Trades.{TradeRecord, sum_pnl, count_wins}
pub mod Recording
pub mod Scoring
pub mod Figures
pub mod Calls
pub mod Realized
pub mod Contexts
pub mod Rescore

pub record ScorerConfig (F : Type 0) : Type 0 where
  pub enabled : Bool
  pub min_trades : ℤ
  pub rescore_hours : ℤ
  pub w_expectancy : F
  pub w_pf : F
  pub w_wr : F
  pub w_con : F
  pub w_fq : F
  pub th_s : F
  pub th_a : F
  pub th_b : F
  pub th_c : F
  pub th_d : F
  pub size_mult : List (Text × F)
  pub max_lev : List (Text × ℤ)
  pub rev_min_trades : ℤ
  pub rev_allow_wr : F
  pub rev_bonus_wr : F
  pub rev_penalty_zero : F
  pub rev_penalty_low : F
  pub rev_bonus : F

pub record RealizedAccumulator (F : Type 0) : Type 0 where
  pub total_gross_pnl : F
  pub total_fee_cost : F
  pub total_net_pnl : F
  pub sum_realized_rr : F
  pub count : ℕ

-- `last_rescore` is 0 until the first rescoring.
pub record SymbolScorer (F : Type 0) : Type 0 where
  pub config : ScorerConfig F
  pub scores : List (Text × SymbolScore F)
  pub context_scores : List (Text × SymbolScore F)
  pub realized_accumulators : List (Text × RealizedAccumulator F)
  pub last_rescore : ℕ

abbrev pub compute_context_key : Text → Text → Text → Text
compute_context_key symbol timeframe direction =
    let tf = if is_empty timeframe then codes "unknown" else timeframe in
    let dir = if is_empty direction then codes "unknown" else direction in
    symbol ++ b':' ∷ (tf ++ b':' ∷ dir)

module _ {F : Type 0} where
  unfoldable pub get_context_score : Text → Text → Text → SymbolScorer F → Option (SymbolScore F)
  get_context_score symbol timeframe direction s =
      lookup (compute_context_key symbol timeframe direction) s.context_scores

  unfoldable pub get_score : Text → SymbolScorer F → Option (SymbolScore F)
  get_score symbol s = lookup symbol s.scores

  -- The score, where it rests on five trades at least.
  unfoldable pub if_enough : Option (SymbolScore F) → Option (SymbolScore F)
  if_enough none = none
  if_enough (some x) = if leb 5 x.total_trades then some x else none

  unfoldable pub or_score : Option (SymbolScore F) → Option (SymbolScore F) → Option (SymbolScore F)
  or_score none y = y
  or_score (some x) y = some x

  unfoldable pub get_best_score : Text → Text → Text → SymbolScorer F → Option (SymbolScore F)
  get_best_score symbol timeframe direction s =
      or_score (if_enough (get_context_score symbol timeframe direction s)) (get_score symbol s)

  unfoldable pub tier_or : Text → Option (SymbolScore F) → Text
  tier_or tier none = tier
  tier_or tier (some x) = x.tier

  unfoldable pub get_tier : Text → SymbolScorer F → Text
  get_tier symbol s = tier_or (codes "C") (get_score symbol s)

  unfoldable pub get_max_leverage : Text → SymbolScorer F → ℤ
  get_max_leverage symbol s = elim (get_score symbol s) [ none ↦ pos 10 | some x ↦ x.max_leverage ]

  -- The clock is not behind the last rescoring.
  unfoldable pub needs_rescore : ℕ → SymbolScorer F → Bool
  needs_rescore now s =
      if s.last_rescore == 0
      then true
      else leb_ℤ (s.config.rescore_hours *ℤ pos 3_600_000_000_000) (pos (now - s.last_rescore))

module _ {F : Type 0} ⦃d : Double F⦄ where
  abbrev pub half : F
  half = d.decimal 5 1

  unfoldable pub get_size_multiplier : Text → SymbolScorer F → F
  get_size_multiplier symbol s = elim (get_score symbol s) [
    | none ↦ half
    | some x ↦ x.size_multiplier
  ]

  unfoldable pub assign_tier : ScorerConfig F → F → Text
  assign_tier c score =
      if d.le c.th_s score
      then codes "S"
      else if d.le c.th_a score
      then codes "A"
      else if d.le c.th_b score
      then codes "B"
      else if d.le c.th_c score
      then codes "C"
      else if d.le c.th_d score
      then codes "D"
      else codes "X"

  unfoldable pub normalize : F → F → F → F
  normalize value low high =
      if d.le high low
      then half
      else clamp_of (d.div (d.sub value low) (d.sub high low)) nought (d.decimal 1 0)

  unfoldable pub size_mult_for : ScorerConfig F → Text → F
  size_mult_for c tier = get_or half (lookup tier c.size_mult)

  unfoldable pub max_lev_for : ScorerConfig F → Text → ℤ
  max_lev_for c tier = get_or (pos 10) (lookup tier c.max_lev)

  -- x / n, or 0 where n is 0
  unfoldable pub per : F → ℕ → F
  per x n = if ltb 0 n then d.div x (d.of_int (pos n)) else nought

  -- The score of n trades, drawn to 35 where they are few.
  unfoldable pub shrunk : F → ℕ → F
  shrunk win_rate n =
      let raw =
        clamp_of (d.add (d.decimal 30 0) (d.mul (d.sub win_rate (d.decimal 33 2)) (d.decimal 50 0)))
          (d.decimal 15 0) (d.decimal 55 0) in
      let conf = d.div (d.of_int (pos n)) (d.add (d.of_int (pos n)) (d.decimal 20 0)) in
      d.add (d.mul (d.decimal 35 0) (d.sub (d.decimal 1 0) conf)) (d.mul raw conf)

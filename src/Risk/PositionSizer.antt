-- ===== src/Risk/PositionSizer.antt =====
-- include/risk/position_sizer.hpp: class PositionSizer. The constructor, which reads the
-- configuration from JSON, is left out: the configuration is a record.
use tv_webhook_trader.Shared.{
  Bool, true, false, ◌&&◌, ◌||◌, not, if◌then◌else◌, List, [], ◌∷◌, ◌++◌, Option, none, some, Text,
  codes, text_eq, ℤ, pos, ltb_ℤ,
}
use tv_webhook_trader.Shared.Double.{Double, nought, min_of, max_of, rounded}
use tv_webhook_trader.Risk.Score.{SymbolScore, blank_score}
pub mod Limits

pub record PositionSizer (F : Type 0) : Type 0 where
  pub kelly_frac : F
  pub max_risk_pct : F
  pub min_usdt : F
  pub max_pct : F
  pub base_pct : F
  pub max_usdt_hard : F
  pub dd_levels : List (F × F)

pub record SizeResult (F : Type 0) : Type 0 where
  pub qty : F
  pub usdt_amount : F
  pub leverage : ℤ
  pub method_used : Text
  pub kelly_fraction : F
  pub kelly_usdt : F
  pub risk_usdt : F
  pub tier_multiplier : F
  pub drawdown_multiplier : F
  pub confidence_boost : F
  pub final_multiplier : F
  pub reason : Text

-- The arguments of calc_size but for the symbol, which it does not read.
pub record SizeRequest (F : Type 0) : Type 0 where
  pub balance : F
  pub price : F
  pub sl_price : F
  pub leverage : ℤ
  pub score : Option (SymbolScore F)
  pub current_dd_pct : F
  pub used_margin : F
  pub confidence_boost : F

-- What the steps before the multipliers come to.
pub record Base (F : Type 0) : Type 0 where
  pub usdt : F
  pub method : Text
  pub kelly_f : F
  pub kelly_usdt : F
  pub risk_usdt : F

abbrev pub blacklisted : {F : Type 0} → Option (SymbolScore F) → Bool
blacklisted none = false
blacklisted (some s) = text_eq s.tier (codes "X")

module _ {F : Type 0} ⦃d : Double F⦄ where
  abbrev pub one : F
  one = d.decimal 1 0

  abbrev pub score_or_default : Option (SymbolScore F) → SymbolScore F
  score_or_default none = record blank_score { size_multiplier = one }
  score_or_default (some s) = s

  -- std::min on int
  abbrev pub capped_leverage : SizeRequest F → ℤ
  capped_leverage q =
      let most = (score_or_default q.score).max_leverage in
      if ltb_ℤ most q.leverage then most else q.leverage

  unfoldable pub available : SizeRequest F → F
  available q = max_of (d.sub q.balance q.used_margin) nought

  unfoldable pub kelly_of : PositionSizer F → F → F → F → F
  kelly_of c wr avg_w avg_l =
      let f = d.sub wr (d.div (d.sub one wr) (d.div avg_w avg_l)) in
      if d.le avg_l nought || d.le avg_w nought
      then nought
      else if d.le f nought
      then nought
      else min_of (d.mul f c.kelly_frac) c.max_risk_pct

  unfoldable pub multiplier_at : F → List (F × F) → F
  multiplier_at dd [] = nought
  multiplier_at dd ((threshold, mult) ∷ ls) =
      if d.le dd threshold then mult else multiplier_at dd ls

  unfoldable pub stop_distance : SizeRequest F → F
  stop_distance q = d.div (d.abs (d.sub q.price q.sl_price)) q.price

  abbrev has_stop : SizeRequest F → Bool
  has_stop q = d.lt nought q.sl_price && d.lt nought q.price

  unfoldable pub risk_size : PositionSizer F → SizeRequest F → F
  risk_size c q =
      let dist = stop_distance q in
      let amount =
        d.div (d.mul q.balance c.max_risk_pct) (d.mul dist (d.of_int (capped_leverage q))) in
      if has_stop q && d.lt nought dist
      then max_of amount c.min_usdt
      else d.mul (available q) c.base_pct

  unfoldable pub base_size : PositionSizer F → SizeRequest F → Base F
  base_size c q =
      let s = score_or_default q.score in
      let start = d.mul (available q) c.base_pct in
      let most = d.mul (available q) c.max_pct in
      let measured = s.data_sufficient && d.lt nought s.win_rate && d.lt nought s.avg_loss in
      let kelly = kelly_of c s.win_rate s.avg_win s.avg_loss in
      let kelly_f = if measured then kelly else nought in
      let kelly_usdt = if measured then max_of (d.mul q.balance kelly) c.min_usdt else start in
      let risk = risk_size c q in
      let hybrid = s.data_sufficient && d.lt nought kelly_f in
      record {
        usdt =
            if hybrid
            then min_of (min_of kelly_usdt risk) most
            else if has_stop q
            then min_of risk most
            else min_of start most;
        method =
            if hybrid
            then codes "kelly_risk_hybrid"
            else if has_stop q
            then codes "risk_per_trade"
            else codes "balance_pct";
        kelly_f = kelly_f;
        kelly_usdt = kelly_usdt;
        risk_usdt = risk;
      }

  unfoldable pub final_mult : PositionSizer F → SizeRequest F → F
  final_mult c q =
      d.mul
        (d.mul (score_or_default q.score).size_multiplier
          (multiplier_at q.current_dd_pct c.dd_levels))
        q.confidence_boost

  -- The size in USDT, under its two caps.
  unfoldable pub final_usdt : PositionSizer F → SizeRequest F → F
  final_usdt c q =
      min_of (d.mul (base_size c q).usdt (final_mult c q))
        (min_of (d.mul (available q) c.max_pct) c.max_usdt_hard)

  -- A result that trades nothing.
  abbrev refusal : ℤ → Text → F → F → F → F → Text → SizeResult F
  refusal leverage method tier dd boost final reason = record {
    qty = nought;
    usdt_amount = nought;
    leverage = leverage;
    method_used = method;
    kelly_fraction = nought;
    kelly_usdt = nought;
    risk_usdt = nought;
    tier_multiplier = tier;
    drawdown_multiplier = dd;
    confidence_boost = boost;
    final_multiplier = final;
    reason = reason;
  }

  fmt1 : F → Text
  fmt1 = d.fixed 1

  fmt2 : F → Text
  fmt2 = d.fixed 2

  fmt_pct : F → Text
  fmt_pct v = d.fixed 2 (d.mul v (d.decimal 100 0)) ++ codes "%"

  unfoldable pub size_reason : PositionSizer F → SizeRequest F → Text
  unfolding fmt1 fmt2 fmt_pct
  size_reason c q =
      let s = score_or_default q.score in
      let b = base_size c q in
      codes "Avail="
      ++ fmt1 (available q)
      ++ codes "USDT"
      ++ codes "("
      ++ fmt1 (d.mul c.base_pct (d.decimal 100 0))
      ++ codes "%->"
      ++ fmt1 b.usdt
      ++ codes ")"
      ++ (if s.data_sufficient then codes " | Kelly=" ++ fmt_pct b.kelly_f else codes "")
      ++ (if d.lt nought q.sl_price
          then codes " | SL=" ++ fmt2 (d.mul (stop_distance q) (d.decimal 100 0)) ++ codes "%"
          else codes "")
      ++ codes " | Tier="
      ++ s.tier
      ++ codes "("
      ++ fmt2 s.size_multiplier
      ++ codes "x)"
      ++ (if d.lt nought q.current_dd_pct
          then codes " | DD="
            ++ fmt1 q.current_dd_pct
            ++ codes "%("
            ++ fmt2 (multiplier_at q.current_dd_pct c.dd_levels)
            ++ codes "x)"
          else codes "")
      ++ (if not (d.eq q.confidence_boost one)
          then codes " | Conf=" ++ fmt2 q.confidence_boost ++ codes "x"
          else codes "")
      ++ codes " -> "
      ++ fmt1 (final_usdt c q)
      ++ codes "USDT"

  unfoldable pub sized : PositionSizer F → SizeRequest F → SizeResult F
  sized c q =
      let b = base_size c q in
      let x = final_usdt c q in
      record {
        qty = if d.lt nought q.price then d.div x q.price else nought;
        usdt_amount = rounded x (d.decimal 100 0);
        leverage = capped_leverage q;
        method_used = b.method;
        kelly_fraction = rounded b.kelly_f (d.decimal 1000000 0);
        kelly_usdt = rounded b.kelly_usdt (d.decimal 100 0);
        risk_usdt = rounded b.risk_usdt (d.decimal 100 0);
        tier_multiplier = (score_or_default q.score).size_multiplier;
        drawdown_multiplier = multiplier_at q.current_dd_pct c.dd_levels;
        confidence_boost = q.confidence_boost;
        final_multiplier = rounded (final_mult c q) (d.decimal 10000 0);
        reason = size_reason c q;
      }

  unfoldable pub calc_size : PositionSizer F → SizeRequest F → SizeResult F
  unfolding fmt1
  calc_size c q =
      let s = score_or_default q.score in
      let dd = multiplier_at q.current_dd_pct c.dd_levels in
      let x = final_usdt c q in
      if blacklisted q.score
      then refusal (pos 0) (codes "blocked") nought nought one nought
          (codes "X-tier blacklisted (score: " ++ d.fixed 6 s.composite_score ++ codes ")")
      else if d.le dd nought
      then refusal (capped_leverage q) (codes "dd_stop") s.size_multiplier nought one nought
          (codes "Drawdown " ++ d.fixed 6 q.current_dd_pct ++ codes "% -> trading halted")
      else if d.lt x c.min_usdt || d.lt (available q) c.min_usdt
      then refusal (capped_leverage q) (codes "below_minimum") s.size_multiplier dd
          q.confidence_boost (final_mult c q)
          (codes "Size "
            ++ fmt1 x
            ++ codes " < min "
            ++ fmt1 c.min_usdt
            ++ codes " USDT (skip, not floor-up)")
      else sized c q

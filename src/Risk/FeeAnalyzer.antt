-- ===== src/Risk/FeeAnalyzer.antt =====
-- include/risk/fee_analyzer.hpp: class FeeAnalyzer, the costs of a trade. The constructor, which reads
-- the configuration, is left out.
use tv_webhook_trader.Shared.{Bool, if◌then◌else◌, List, Text, codes, text_eq, contains, ℤ}
use tv_webhook_trader.Shared.Double.{Double, nought}

pub record FeeAnalyzer (F : Type 0) : Type 0 where
  pub taker_fee : F
  pub maker_fee : F
  pub funding_default : F
  pub min_tp_ratio : F
  pub major_symbols : List Text
  pub slip_major : F
  pub slip_mid : F
  pub slip_alt : F

pub record CostAnalysis (F : Type 0) : Type 0 where
  pub symbol : Text
  pub slippage_tier : Text
  pub taker_fee_pct : F
  pub maker_fee_pct : F
  pub slippage_pct : F
  pub round_trip_cost_pct : F
  pub break_even_pct : F
  pub break_even_price : F
  pub effective_cost_pct : F
  pub funding_rate_8h_pct : F
  pub funding_per_day_pct : F

pub record BreakEven (F : Type 0) : Type 0 where
  pub pct : F
  pub price_move : F

pub record TpCheck (F : Type 0) : Type 0 where
  pub profitable : Bool
  pub tp_distance_pct : F
  pub break_even_pct : F
  pub ratio : F
  pub min_ratio : F

pub record NetExpectancy (F : Type 0) : Type 0 where
  pub positive : Bool
  pub gross_expectancy : F
  pub total_cost_pct : F
  pub net_expectancy : F
  pub min_win_rate : F

module _ {F : Type 0} where
  unfoldable pub get_slippage_tier : FeeAnalyzer F → Text → Text
  get_slippage_tier a symbol =
      if contains a.major_symbols symbol then codes "major" else codes "altcoin"

  unfoldable pub get_slippage : FeeAnalyzer F → Text → F
  get_slippage a symbol =
      let tier = get_slippage_tier a symbol in
      if text_eq tier (codes "major")
      then a.slip_major
      else if text_eq tier (codes "mid")
      then a.slip_mid
      else a.slip_alt

module _ {F : Type 0} ⦃d : Double F⦄ where
  -- Both ends of a trade, as a fraction.
  abbrev pub round_trip : FeeAnalyzer F → Text → F
  round_trip a symbol = d.mul (d.decimal 2 0) (d.add a.taker_fee (get_slippage a symbol))

  unfoldable pub round_trip_cost_pct : FeeAnalyzer F → Text → F
  round_trip_cost_pct a symbol = d.mul (round_trip a symbol) (d.decimal 100 0)

  unfoldable pub break_even_move : FeeAnalyzer F → Text → F → BreakEven F
  break_even_move a symbol price = record {
    pct = d.mul (round_trip a symbol) (d.decimal 100 0);
    price_move = d.mul price (round_trip a symbol);
  }

  -- The last argument is 0 where no ratio of its own is configured.
  unfoldable pub is_tp_profitable : FeeAnalyzer F → Text → F → F → F → TpCheck F
  is_tp_profitable a symbol entry tp custom =
      let dist = d.mul (d.div (d.abs (d.sub tp entry)) entry) (d.decimal 100 0) in
      let be = break_even_move a symbol entry in
      let ratio = if d.lt nought be.pct then d.div dist be.pct else d.decimal 999 0 in
      let min_r = if d.lt nought custom then custom else a.min_tp_ratio in
      record {
        profitable = d.le min_r ratio;
        tp_distance_pct = dist;
        break_even_pct = be.pct;
        ratio = ratio;
        min_ratio = min_r;
      }

  unfoldable pub check_net_expectancy : FeeAnalyzer F → Text → F → F → F → F → NetExpectancy F
  check_net_expectancy a symbol win_rate avg_win avg_loss hours =
      let funding =
        d.mul (d.mul a.funding_default (d.decimal 100 0)) (d.div hours (d.decimal 8 0)) in
      let cost = d.add (round_trip_cost_pct a symbol) funding in
      let gross =
        d.sub (d.mul win_rate avg_win) (d.mul (d.sub (d.decimal 1 0) win_rate) avg_loss) in
      let net = d.sub gross cost in
      record {
        positive = d.lt nought net;
        gross_expectancy = gross;
        total_cost_pct = cost;
        net_expectancy = net;
        min_win_rate =
            if d.lt nought (d.add avg_win avg_loss)
            then d.div (d.add avg_loss cost) (d.add avg_win avg_loss)
            else nought;
      }

  unfoldable pub analyze : FeeAnalyzer F → Text → F → ℤ → CostAnalysis F
  analyze a symbol price leverage =
      let cost = round_trip_cost_pct a symbol in
      let hundred = d.decimal 100 0 in
      record {
        symbol = symbol;
        slippage_tier = get_slippage_tier a symbol;
        taker_fee_pct = d.mul a.taker_fee hundred;
        maker_fee_pct = d.mul a.maker_fee hundred;
        slippage_pct = d.mul (get_slippage a symbol) hundred;
        round_trip_cost_pct = cost;
        break_even_pct = cost;
        break_even_price = d.mul price (d.div cost hundred);
        effective_cost_pct = d.mul cost (d.of_int leverage);
        funding_rate_8h_pct = d.mul a.funding_default hundred;
        funding_per_day_pct = d.mul (d.mul a.funding_default hundred) (d.decimal 3 0);
      }

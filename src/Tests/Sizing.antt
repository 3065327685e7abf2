-- ===== src/Tests/Sizing.antt =====
-- include/risk/position_sizer.hpp on concrete inputs.
use tv_webhook_trader.Shared.{
  ◌≡◌, refl, ◌⊎◌, true, [], ◌∷◌, none, ℤ, pos, leb_ℤ, ltb_ℤ, List, ◌+ℤ◌, ◌-ℤ◌, ◌*ℤ◌,
}
use tv_webhook_trader.Shared.Double.{whole, whole-IsExact, min_of, max_of}
use tv_webhook_trader.Risk.PositionSizer.{
  PositionSizer, SizeRequest, calc_size, multiplier_at, sized, final_usdt, final_mult, base_size,
  risk_size, available, stop_distance,
}
use tv_webhook_trader.Risk.PositionSizer.Limits.{IsRefused, IsSized, calc_size_lem, IsFalling}

abbrev levels : List (ℤ × ℤ)
levels = (pos 10, pos 3) ∷ (pos 20, pos 2) ∷ (pos 30, pos 1) ∷ []

abbrev pub sizer : PositionSizer ℤ
sizer = record {
  kelly_frac = pos 1;
  max_risk_pct = pos 1;
  min_usdt = pos 5;
  max_pct = pos 1;
  base_pct = pos 1;
  max_usdt_hard = pos 100;
  dd_levels = levels;
}

abbrev request : SizeRequest ℤ
request = record {
  balance = pos 1000;
  price = pos 10;
  sl_price = pos 0;
  leverage = pos 20;
  score = none;
  current_dd_pct = pos 4;
  used_margin = pos 200;
  confidence_boost = pos 1;
}

calc_size_example :
    IsRefused (calc_size sizer request) ⊎ IsSized sizer request (calc_size sizer request)
calc_size_example = calc_size_lem whole-IsExact sizer request

levels_fall : IsFalling (pos 4) levels
unfolding leb_ℤ
levels_fall = (refl, (refl, (refl, refl)))

deeper : leb_ℤ (pos 7) (pos 25) ≡ true
unfolding leb_ℤ
deeper = refl

-- A request that is met: the size is the hard cap.
sized_amount : (calc_size sizer request).usdt_amount ≡ pos 100
unfolding calc_size sized final_usdt final_mult base_size risk_size available stop_distance
    multiplier_at min_of max_of ltb_ℤ leb_ℤ ◌+ℤ◌ ◌-ℤ◌ ◌*ℤ◌
sized_amount = refl

-- ===== src/Risk/PositionSizer/Limits.antt =====
-- How large a position can be, and when there is none.
use tv_webhook_trader.Shared.{
  ◌≡◌, refl, ◌⊎◌, true, false, if◌then◌else◌, List, [], ◌∷◌, ltb_ℤ, leb_ℤ, arith,
}
use tv_webhook_trader.Shared.Double.{Double, nought, min_of, rounded, IsExact}
use tv_webhook_trader.Risk.PositionSizer.{
  PositionSizer, SizeRequest, SizeResult, blacklisted, score_or_default, capped_leverage, available,
  multiplier_at, final_usdt, sized, calc_size,
}

module _ {F : Type 0} ⦃d : Double F⦄ where
  min_of-le : IsExact d → (a b : F) → (d.le (min_of a b) a ≡ true) × (d.le (min_of a b) b ≡ true)
  unfolding min_of
  min_of-le laws a b = ground (
    arith,
    laws.le_refl a,
    laws.le_refl b,
    laws.le_of_not_lt b a,
    laws.le_of_lt b a,
    laws.le_of_not_lt a b,
  )

  -- Nothing is traded.
  abbrev pub IsRefused : SizeResult F → Type 0
  IsRefused r = (r.qty ≡ nought) × (r.usdt_amount ≡ nought)

  -- The position has a size between the minimum and both caps, the amount is that size rounded to
  -- cents, the quantity that size at the price, and the leverage is what was asked for or the score's
  -- limit, whichever is less.
  pub record IsSized (c : PositionSizer F) (q : SizeRequest F) (r : SizeResult F) : Type 0 where
    pub size : F
    pub quantity : r.qty ≡ (if d.lt nought q.price then d.div size q.price else nought)
    pub amount : r.usdt_amount ≡ rounded size (d.decimal 100 0)
    pub enough : d.le c.min_usdt size ≡ true
    pub below_hard_cap : d.le size c.max_usdt_hard ≡ true
    pub below_share : d.le size (d.mul (available q) c.max_pct) ≡ true
    pub covered : d.le c.min_usdt (available q) ≡ true
    pub running : d.le (multiplier_at q.current_dd_pct c.dd_levels) nought ≡ false
    pub leverage_asked : leb_ℤ r.leverage q.leverage ≡ true
    pub leverage_allowed : leb_ℤ r.leverage (score_or_default q.score).max_leverage ≡ true

  final_usdt-capped :
      IsExact d
      → (c : PositionSizer F) (q : SizeRequest F)
      → (d.le (final_usdt c q) (d.mul (available q) c.max_pct) ≡ true)
        × (d.le (final_usdt c q) c.max_usdt_hard ≡ true)
  unfolding final_usdt
  final_usdt-capped laws c q =
      let caps = min_of-le laws (d.mul (available q) c.max_pct) c.max_usdt_hard in
      let both = min_of-le laws _ (min_of (d.mul (available q) c.max_pct) c.max_usdt_hard) in
      (laws.le_trans _ _ _ both.1 caps.0, laws.le_trans _ _ _ both.1 caps.1)

  capped_leverage-le :
      (q : SizeRequest F)
      → (leb_ℤ (capped_leverage q) q.leverage ≡ true)
        × (leb_ℤ (capped_leverage q) (score_or_default q.score).max_leverage ≡ true)
  unfolding leb_ℤ ltb_ℤ
  capped_leverage-le q = ground arith

  sized-IsSized :
      IsExact d
      → (c : PositionSizer F) (q : SizeRequest F)
      → d.le (multiplier_at q.current_dd_pct c.dd_levels) nought ≡ false
      → d.lt (final_usdt c q) c.min_usdt ≡ false
      → d.lt (available q) c.min_usdt ≡ false
      → IsSized c q (sized c q)
  unfolding sized
  sized-IsSized laws c q running enough covered =
      let caps = final_usdt-capped laws c q in
      let lev = capped_leverage-le q in
      record {
        size = final_usdt c q;
        quantity = refl;
        amount = refl;
        enough = laws.le_of_not_lt c.min_usdt (final_usdt c q) enough;
        below_hard_cap = caps.1;
        below_share = caps.0;
        covered = laws.le_of_not_lt c.min_usdt (available q) covered;
        running = running;
        leverage_asked = lev.0;
        leverage_allowed = lev.1;
      }

  -- A request either comes to nothing, or to a position between the minimum and both caps, with
  -- leverage within what was asked for and what the score allows. It asks for doubles that do not
  -- round.
  pub calc_size_lem :
      IsExact d
      → (c : PositionSizer F) (q : SizeRequest F)
      → IsRefused (calc_size c q) ⊎ IsSized c q (calc_size c q)
  unfolding calc_size
  calc_size_lem laws c q = ground (arith, sized-IsSized laws c q)

  -- What stops a request: a blacklisted symbol, a drawdown with no multiplier left, or too little
  -- money.
  pub data IsStopped (c : PositionSizer F) (q : SizeRequest F) : Type 0 where
    by_tier : blacklisted q.score ≡ true → IsStopped c q
    by_drawdown : d.le (multiplier_at q.current_dd_pct c.dd_levels) nought ≡ true → IsStopped c q
    by_size : d.lt (final_usdt c q) c.min_usdt ≡ true → IsStopped c q
    by_balance : d.lt (available q) c.min_usdt ≡ true → IsStopped c q

  -- A request for a blacklisted symbol, in a drawdown with no multiplier left, for a size below the
  -- minimum or with too little money trades nothing.
  pub calc_size-IsRefused :
      (c : PositionSizer F) (q : SizeRequest F) → IsStopped c q → IsRefused (calc_size c q)
  unfolding calc_size
  calc_size-IsRefused c q (by_tier h) = ground arith
  calc_size-IsRefused c q (by_drawdown h) = ground arith
  calc_size-IsRefused c q (by_size h) = ground arith
  calc_size-IsRefused c q (by_balance h) = ground arith

  -- The multipliers fall from `m` on along the levels, and not below zero.
  abbrev pub IsFalling : F → List (F × F) → Type 0
  IsFalling m [] = d.le nought m ≡ true
  IsFalling m ((t, k) ∷ ls) = (d.le k m ≡ true) × IsFalling k ls

  multiplier_at-le :
      IsExact d
      → (dd m : F) (ls : List (F × F)) → IsFalling m ls
      → d.le (multiplier_at dd ls) m ≡ true
  unfolding multiplier_at
  multiplier_at-le laws dd m [] h = h
  multiplier_at-le laws dd m ((t, k) ∷ ls) h =
      ground (arith, multiplier_at-le laws dd k ls h.1, laws.le_trans (multiplier_at dd ls) k m)

  -- Where the multipliers of the levels fall, a deeper drawdown never has a larger one.
  pub multiplier_at_falls :
      IsExact d
      → (dd deeper m : F) (ls : List (F × F)) → d.le dd deeper ≡ true
      → IsFalling m ls
      → d.le (multiplier_at deeper ls) (multiplier_at dd ls) ≡ true
  unfolding multiplier_at
  multiplier_at_falls laws dd deeper m [] h v = laws.le_refl nought
  multiplier_at_falls laws dd deeper m ((t, k) ∷ ls) h v = ground (
    arith,
    laws.le_refl k,
    laws.le_trans dd deeper t h,
    multiplier_at-le laws deeper k ls v.1,
    multiplier_at_falls laws dd deeper k ls h v.1,
  )

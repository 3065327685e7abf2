-- ===== src/Risk/Portfolio/Summary.antt =====
-- include/risk/portfolio_risk.hpp: PortfolioState and get_state, and the two ways in which positions
-- with no timeframe are counted.
use tv_webhook_trader.Shared.{
  ℕ, ◌+◌, ◌≡◌, refl, ◌∙◌, Bool, true, false, if◌then◌else◌, List, [], ◌∷◌, none, Text, codes,
  text_eq, text_eq_iff, lookup, insert, lookup-insert, length, pos, leb_ℤ, arith, All, ltb_ℤ,
  leb_ℤ_of_ltb,
}
use tv_webhook_trader.Shared.Double.{Double, nought}
use tv_webhook_trader.Risk.Position.{ManagedPosition, Positions, margin_of, count_timeframe}
use tv_webhook_trader.Risk.Portfolio.{PortfolioRisk}
use tv_webhook_trader.Risk.Portfolio.Entry.{
  Proposal, timeframe_name, found_or, timeframe_check, timeframe_limit,
}

pub record PortfolioState (F : Type 0) : Type 0 where
  pub total_positions : ℕ
  pub total_notional : F
  pub total_margin_used : F
  pub margin_used_pct : F
  pub positions_by_tf : List (Text × ℕ)
  pub exposure_by_tf : List (Text × F)
  pub correlated_risk : F
  pub correlated_risk_pct : F
  pub daily_pnl : F
  pub weekly_pnl : F
  pub current_drawdown_pct : F
  pub circuit_breaker_active : Bool

-- What the loop over the positions adds up.
pub record Sums (F : Type 0) : Type 0 where
  pub notional : F
  pub margin : F
  pub by_tf : List (Text × ℕ)
  pub exposure : List (Text × F)

abbrev pub total_of : List (Text × ℕ) → ℕ
total_of [] = 0
total_of ((_, n) ∷ m) = n + total_of m

total_of-insert :
    (k : Text) (m : List (Text × ℕ))
    → total_of (insert k (found_or 0 (lookup k m) + 1) m) ≡ total_of m + 1
unfolding insert lookup
total_of-insert k [] = omega arith
total_of-insert k ((j, n) ∷ m) = ground (arith, total_of-insert k m)

module _ {F : Type 0} ⦃d : Double F⦄ where
  unfoldable pub add_position : ManagedPosition F → Sums F → Sums F
  add_position p s =
      let notional = d.abs (d.mul (d.mul p.entry_price p.quantity) (d.of_int p.leverage)) in
      let tf = timeframe_name p.timeframe in
      record {
        notional = d.add s.notional notional;
        margin = d.add s.margin (margin_of p);
        by_tf = insert tf (found_or 0 (lookup tf s.by_tf) + 1) s.by_tf;
        exposure = insert tf (d.add (found_or nought (lookup tf s.exposure)) notional) s.exposure;
      }

  unfoldable pub add_positions : Sums F → Positions F → Sums F
  add_positions s [] = s
  add_positions s ((_, p) ∷ ps) = add_positions (add_position p s) ps

  -- std::round(x * scale) / scale'
  abbrev rounded : F → ℕ → ℕ → F
  rounded x scale down = d.div (d.round (d.mul x (d.decimal scale 0))) (d.decimal down 0)

  round_exposure : List (Text × F) → List (Text × F)
  round_exposure [] = []
  round_exposure ((k, v) ∷ m) = (k, rounded v 100 100) ∷ round_exposure m

  share_of : F → F → F
  share_of x balance = if d.lt nought balance then rounded (d.div x balance) 1000 10 else nought

  unfoldable pub get_state : F → Positions F → F → PortfolioRisk F → PortfolioState F
  unfolding round_exposure share_of
  get_state balance positions peak m =
      let zero : Sums F = record {
        notional = nought;
        margin = nought;
        by_tf = [];
        exposure = [];
      } in
      let s = add_positions zero positions in
      let correlated = d.mul s.margin m.config.corr_factor in
      let drop =
        if d.lt nought peak
        then d.mul (d.div (d.sub peak balance) peak) (d.decimal 100 0)
        else nought in
      record {
        total_positions = length positions;
        total_notional = rounded s.notional 100 100;
        total_margin_used = rounded s.margin 100 100;
        margin_used_pct = share_of s.margin balance;
        positions_by_tf = s.by_tf;
        exposure_by_tf = round_exposure s.exposure;
        correlated_risk = correlated;
        correlated_risk_pct = share_of correlated balance;
        daily_pnl = rounded m.daily_pnl 10000 10000;
        weekly_pnl = rounded m.weekly_pnl 10000 10000;
        current_drawdown_pct = rounded drop 100 100;
        circuit_breaker_active = m.cb_active;
      }

  -- How many positions are shown under a timeframe.
  pub shown_under : Text → Positions F → ℕ
  shown_under tf [] = 0
  shown_under tf ((_, p) ∷ ps) =
      (if text_eq (timeframe_name p.timeframe) tf then 1 else 0) + shown_under tf ps

  add_position-lookup :
      (p : ManagedPosition F) (s : Sums F) (tf : Text) (n : ℕ)
      → found_or 0 (lookup tf (add_position p s).by_tf) + n
        ≡ found_or 0 (lookup tf s.by_tf)
          + ((if text_eq (timeframe_name p.timeframe) tf then 1 else 0) + n)
  unfolding add_position
  add_position-lookup p s tf n =
      let name = timeframe_name p.timeframe in
      ground (
        arith,
        text_eq_iff name tf,
        lookup-insert name tf (found_or 0 (lookup name s.by_tf) + 1) s.by_tf,
      )

  add_position_total :
      (p : ManagedPosition F) (s : Sums F)
      → total_of (add_position p s).by_tf ≡ total_of s.by_tf + 1
  unfolding add_position
  add_position_total p s = total_of-insert (timeframe_name p.timeframe) s.by_tf

  add_positions-by_tf :
      (s : Sums F) (ps : Positions F) (tf : Text)
      → let t = add_positions s ps in
        (found_or 0 (lookup tf t.by_tf) ≡ found_or 0 (lookup tf s.by_tf) + shown_under tf ps)
        × (total_of t.by_tf ≡ total_of s.by_tf + length ps)
  unfolding add_positions shown_under
  add_positions-by_tf s [] tf = (omega arith, omega arith)
  add_positions-by_tf s ((k, p) ∷ ps) tf =
      let name = timeframe_name p.timeframe in
      let ih = add_positions-by_tf (add_position p s) ps tf in
      (
        ih.0 ∙ add_position-lookup p s tf (shown_under tf ps),
        omega (arith, ih.1, add_position_total p s),
      )

  -- The state shows each position under its timeframe, or under "unknown" if it has none, and all of
  -- them.
  pub get_state-by_tf :
      (balance peak : F) (ps : Positions F) (m : PortfolioRisk F) (tf : Text)
      → let s = get_state balance ps peak m in
        (found_or 0 (lookup tf s.positions_by_tf) ≡ shown_under tf ps)
        × (total_of s.positions_by_tf ≡ s.total_positions)
  unfolding get_state lookup
  get_state-by_tf balance peak ps m tf =
      let h =
        add_positions-by_tf
          (record { notional = nought; margin = nought; by_tf = []; exposure = [] }) ps tf in
      (omega (arith, h.0), omega (arith, h.1))

module _ {F : Type 0} where
  count_timeframe-unnamed :
      (ps : Positions F)
      → All (λ kp. kp.1.timeframe ≡ []) ps
      → count_timeframe (codes "unknown") ps ≡ 0
  unfolding count_timeframe text_eq
  count_timeframe-unnamed [] h = refl
  count_timeframe-unnamed ((k, p) ∷ ps) h = rw h.0 (omega (arith, count_timeframe-unnamed ps h.1))

  -- The limit on the positions of a timeframe never stops entries without a timeframe: they are
  -- checked under "unknown", where the positions that they open have the empty timeframe.
  pub timeframe_check-unnamed :
      (e : Proposal F) (m : PortfolioRisk F)
      → e.timeframe ≡ []
      → All (λ kp. kp.1.timeframe ≡ []) e.positions
      → ltb_ℤ (pos 0) (timeframe_limit (codes "unknown") m) ≡ true
      → timeframe_check e m ≡ none
  unfolding timeframe_check timeframe_name
  timeframe_check-unnamed e m h a limit =
      let room : leb_ℤ (timeframe_limit (codes "unknown") m) (pos 0) ≡ false =
        leb_ℤ_of_ltb (pos 0) (timeframe_limit (codes "unknown") m) limit in
      rw (h, count_timeframe-unnamed e.positions a, room)

-- ===== src/Execution/Engine/Refresh.antt =====
-- include/execution/execution_engine.hpp: what the engine takes over from the exchange, in periodic_tasks
-- and init_leverage and in the callback on the account. The equity and the unrealized result are kept for
-- the dashboard alone and left out.
use tv_webhook_trader.Shared.{ℕ, ◌≡◌, refl, arith, if◌then◌else◌, List, Text}
use tv_webhook_trader.Shared.Double.{Double, nought}
use tv_webhook_trader.Risk.Portfolio
use tv_webhook_trader.Execution.Positions.Exchange.{
  ExchangePos, Accounts, accept_balance, with_balance,
}
use tv_webhook_trader.Execution.Positions.Sync.{reconcile}
use tv_webhook_trader.Execution.Engine.{Engine}

-- What the engine reads of the exchange's report on the account, but for the unrealized result.
pub record WsAccountUpdate (F : Type 0) : Type 0 where
  pub available : F
  pub equity : F

module _ {F : Type 0} where
  abbrev accounts : Engine F → Accounts F
  accounts e = record {
    balance = e.recorder.balance;
    peak_balance = e.recorder.peak_balance;
    port_risk = e.auto.port_risk;
  }

  abbrev with_accounts : Engine F → Accounts F → Engine F
  with_accounts e a = record e {
    recorder = record e.recorder { balance = a.balance; peak_balance = a.peak_balance };
    auto = record e.auto { port_risk = a.port_risk };
  }

module _ {F : Type 0} ⦃d : Double F⦄ where
  -- sync_positions_with_exchange, where the exchange answers with these positions.
  unfoldable pub synced : ℕ → List (Text × ExchangePos F) → Engine F → Engine F
  synced now ex e = record e { positions = reconcile now ex e.positions }

  -- fetch_real_balance, where the exchange answers with these amounts.
  unfoldable pub balanced : F → F → F → Engine F → Engine F
  balanced available equity upnl e =
      with_accounts e (accept_balance available equity upnl (accounts e)).0

  unfoldable pub on_ws_account : WsAccountUpdate F → Engine F → Engine F
  on_ws_account upd e =
      let peak = e.recorder.peak_balance in
      if d.lt nought upd.available
      then with_accounts e (record {
        balance = upd.available;
        peak_balance = if d.lt peak upd.equity then upd.equity else peak;
        port_risk = Portfolio.update_balance upd.available e.auto.port_risk;
      })
      else e

  -- The accounts are all that a report on them changes: no breaker, no manager of orders, no fingerprint.
  abbrev pub IsAccounting : Engine F → Engine F → Type 0
  IsAccounting e e' =
      (e'.positions ≡ e.positions)
      × (e'.risk ≡ e.risk)
      × (e'.recent_fingerprints ≡ e.recent_fingerprints)
      × (e'.auto.port_risk.cb_active ≡ e.auto.port_risk.cb_active)

  pub balanced-IsAccounting :
      (available equity upnl : F) (e : Engine F) → IsAccounting e (balanced available equity upnl e)
  unfolding balanced accept_balance with_balance Portfolio.update_balance
  balanced-IsAccounting available equity upnl e = (refl, refl, refl, ground arith)

  pub on_ws_account-IsAccounting :
      (upd : WsAccountUpdate F) (e : Engine F) → IsAccounting e (on_ws_account upd e)
  unfolding on_ws_account Portfolio.update_balance
  on_ws_account-IsAccounting upd e = (ground arith, ground arith, ground arith, ground arith)

-- ===== src/Execution/Positions/Exchange.antt =====
-- include/execution/position_manager.hpp: what fetch_real_balance and sync_positions_with_exchange read
-- from the answers of the exchange, and what the first of them does. The JSON library is a parameter; an
-- answer is a value of it.
use tv_webhook_trader.Shared.{
  Bool, true, false, not, ◌&&◌, ◌||◌, if◌then◌else◌, List, [], ◌∷◌, ◌++◌, Option, none, some, Text,
  codes, text_eq, is_empty, ℤ, pos, get_or, insert,
}
use tv_webhook_trader.Shared.Decimal.{stoi}
use tv_webhook_trader.Shared.Double.{Double, nought}
use tv_webhook_trader.Shared.Json.{Outcome, done, thrown, ◌>>=◌, Json}
use tv_webhook_trader.Risk.Portfolio.{PortfolioRisk}
use tv_webhook_trader.Risk.Portfolio

pub record ExchangePos (F : Type 0) : Type 0 where
  pub symbol : Text
  pub hold_side : Text
  pub total : F
  pub avg_price : F
  pub leverage : ℤ

pub record BalanceResult (F : Type 0) : Type 0 where
  pub available : F
  pub equity : F
  pub unrealized_pnl : F
  pub ok : Bool

-- m_balance, m_peak_balance and the portfolio's risk manager.
pub record Accounts (F : Type 0) : Type 0 where
  pub balance : F
  pub peak_balance : F
  pub port_risk : PortfolioRisk F

-- catch (...) { return a; }
abbrev caught {ℓ} : {A : Type ℓ} → A → Outcome (Option A) → Outcome A
caught a (done o) = done (get_or a o)
caught a thrown = done a

-- std::stod and std::stoi, where an exception leaves the function
abbrev converted {ℓ} : {A : Type ℓ} → Option A → Outcome A
converted none = thrown
converted (some a) = done a

-- symbol + ":" + side
abbrev pub side_name : Text → Text → Text
side_name symbol side = symbol ++ b':' ∷ side

module _ {F : Type 0} ⦃d : Double F⦄ where
  -- A position with a symbol and a quantity is filed under its name.
  unfoldable pub file_position :
      ExchangePos F → List (Text × ExchangePos F) → List (Text × ExchangePos F)
  file_position ep ex =
      if not (is_empty ep.symbol) && d.lt nought ep.total
      then insert (side_name ep.symbol ep.hold_side) ep ex
      else ex

  -- A peak that is out of proportion to the account is set anew.
  unfoldable pub with_balance : F → F → Accounts F → Accounts F
  with_balance available equity a =
      let balance = if d.lt nought available then available else a.balance in
      let real_equity = if d.lt nought equity then equity else balance in
      let peak = a.peak_balance in
      record {
        balance = balance;
        peak_balance =
            if d.lt (d.mul real_equity (d.decimal 2 0)) peak || d.lt peak balance
            then real_equity
            else peak;
        port_risk = Portfolio.update_balance balance a.port_risk;
      }

  abbrev answered : F → F → F → Bool → BalanceResult F
  answered available equity upnl ok = record {
    available = available;
    equity = equity;
    unrealized_pnl = upnl;
    ok = ok;
  }

  -- Amounts that are both zero are no answer.
  unfoldable pub accept_balance : F → F → F → Accounts F → Accounts F × BalanceResult F
  accept_balance available equity upnl a =
      if d.lt nought available || d.lt nought equity
      then (with_balance available equity a, answered available equity upnl true)
      else (a, answered available equity upnl false)

module _ {F J : Type 0} ⦃d : Double F⦄ (json : Json F J) where
  unfoldable pub parse_double : J → Text → Outcome F
  parse_double j key =
      let v = json.at j key in
      if not (json.has j key)
      then done nought
      else if json.is_string v
      then caught nought (json.get_text v >>= λ s. done (d.parse s))
      else if json.is_number v
      then json.get_double v
      else done nought

  unfoldable pub parse_int : J → Text → ℤ → Outcome ℤ
  parse_int j key default =
      let v = json.at j key in
      if not (json.has j key)
      then done default
      else if json.is_string v
      then caught default (json.get_text v >>= λ s. done (stoi s))
      else if json.is_number v
      then json.get_int v
      else done default

  unfoldable pub read_position : J → Outcome (ExchangePos F)
  read_position j = do
    symbol ← json.value_text j (codes "symbol") (codes "")
    hold_side ← json.value_text j (codes "holdSide") (codes "")
    total ← parse_double j (codes "total")
    avg_price ← parse_double j (codes "averageOpenPrice")
    leverage ← parse_int j (codes "leverage") (pos 10)
    done (record {
      symbol = symbol;
      hold_side = hold_side;
      total = total;
      avg_price = avg_price;
      leverage = leverage;
    })

  unfoldable pub read_positions :
      List J → List (Text × ExchangePos F) → Outcome (List (Text × ExchangePos F))
  read_positions [] ex = done ex
  read_positions (j ∷ js) ex = read_position j >>= λ ep. read_positions js (file_position ep ex)

  -- An answer without an array of positions has none.
  unfoldable pub rows : J → List J
  rows resp = if json.has resp (codes "data") then json.items (json.at resp (codes "data")) else []

  -- None where the exchange reports an error.
  unfoldable pub exchange_positions : J → Outcome (Option (List (Text × ExchangePos F)))
  exchange_positions resp = do
    code ← json.value_text resp (codes "code") (codes "99999")
    (if text_eq code (codes "00000")
        then (read_positions (rows resp) [] >>= λ ex. done (some ex))
        else done none)

  unfoldable pub amount : J → Text → Outcome F
  amount j key =
      if json.has j key
      then (json.get_text (json.at j key) >>= λ s. converted (d.parse s))
      else done nought

  abbrev no_balance : BalanceResult F
  no_balance = record { available = nought; equity = nought; unrealized_pnl = nought; ok = false }

  unfoldable pub read_amounts : J → Accounts F → Outcome (Accounts F × BalanceResult F)
  read_amounts j a = do
    available ← amount j (codes "available")
    equity ← amount j (codes "accountEquity")
    upnl ← amount j (codes "unrealizedPL")
    done (accept_balance available equity upnl a)

  unfoldable pub read_account : J → Accounts F → Outcome (Accounts F × BalanceResult F)
  read_account account a = do
    code ← json.value_text account (codes "code") (codes "99999")
    (if text_eq code (codes "00000") && json.has account (codes "data")
        then read_amounts (json.at account (codes "data")) a
        else done (a, no_balance))

  -- Whatever the exchange answers, an exception leaves all as it is.
  unfoldable pub fetch_real_balance : J → Accounts F → Accounts F × BalanceResult F
  fetch_real_balance account a = elim (read_account account a) [
    | done r ↦ r
    | thrown ↦ (a, no_balance)
  ]

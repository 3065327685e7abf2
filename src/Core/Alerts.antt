-- ===== src/Core/Alerts.antt =====
-- include/core/alert_manager.hpp: class AlertManager. `iso_now` reads the clock and prints it, so the
-- time stamp is an argument; get_alerts_json is modelled up to the list of alerts that it prints.
pub mod Window
use tv_webhook_trader.Shared.{
  ℕ, suc, ◌+◌, ◌-◌, ◌≡◌, Bool, true, false, List, [], ◌∷◌, ◌++◌, ltb, length, drop, if◌then◌else◌,
  Text, codes, ℤ, pos, ltb_ℤ, ◌-ℤ◌, pos_part, map,
}

pub data AlertLevel : Type 0 where
  info warn error critical : AlertLevel

pub alert_level_str : AlertLevel → Text
alert_level_str info = codes "INFO"
alert_level_str warn = codes "WARN"
alert_level_str error = codes "ERROR"
alert_level_str critical = codes "CRITICAL"

pub record Alert : Type 0 where
  pub timestamp : Text
  pub level : AlertLevel
  pub category : Text
  pub message : Text
  pub symbol : Text

abbrev pub max_alerts : ℕ
max_alerts = 500

-- m_alerts.pop_front()
abbrev pop_front : List Alert → List Alert
pop_front [] = []
pop_front (a ∷ rest) = rest

-- push_back, then the bound
pub push : Alert → List Alert → List Alert
push a l =
    let grown = l ++ a ∷ [] in if ltb max_alerts (length grown) then pop_front grown else grown

pub add : Text → AlertLevel → Text → Text → Text → List Alert → List Alert
unfolding push
add now level category message symbol = push (record {
  timestamp = now;
  level = level;
  category = category;
  message = message;
  symbol = symbol;
})

-- Where get_alerts_json starts: max(size - limit, 0).
start_index : ℤ → List Alert → ℕ
start_index limit l =
    let start = pos (length l) -ℤ limit in if ltb_ℤ start (pos 0) then 0 else pos_part start

pub record AlertRow : Type 0 where
  pub timestamp : Text
  pub level : Text
  pub category : Text
  pub message : Text
  pub symbol : Text

pub alert_row : Alert → AlertRow
unfolding alert_level_str
alert_row a = record {
  timestamp = a.timestamp;
  level = alert_level_str a.level;
  category = a.category;
  message = a.message;
  symbol = a.symbol;
}

pub get_alerts : ℤ → List Alert → List AlertRow
unfolding start_index alert_row
get_alerts limit l = map alert_row (drop (start_index limit l) l)

pub count : List Alert → ℕ
count l = length l

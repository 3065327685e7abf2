-- ===== src/Webhook/Classify.antt =====
-- include/webhook/signal_types.hpp, parse_sfx: what kind of signal an alert is, and what it does.
pub mod Meaning
pub mod Names
use tv_webhook_trader.Shared.{
  Bool, true, false, ◌||◌, if◌then◌else◌, Text, codes, text_eq, map, upper_char, lower_char,
}
use tv_webhook_trader.Webhook.Signal.{SignalType, entry, tp, sl, re_entry, unknown}

unfoldable pub to_upper : Text → Text
to_upper s = map upper_char s

unfoldable pub to_lower : Text → Text
to_lower s = map lower_char s

-- The fields that the classification writes. parse_sfx is handed a fresh signal, so a field that a
-- branch leaves as it is stays empty.
pub record Intent : Type 0 where
  pub sig_type : SignalType
  pub action : Text
  pub trade_side : Text
  pub tp_level : Text

unfoldable pub is_entry : Text → Bool
is_entry u = text_eq u (codes "BUY") || text_eq u (codes "SELL")

unfoldable pub is_tp : Text → Bool
is_tp u = text_eq u (codes "TP1") || text_eq u (codes "TP2") || text_eq u (codes "TP3")

unfoldable pub is_sl : Text → Bool
is_sl u =
    text_eq u (codes "SL")
    || text_eq u (codes "STOP_LOSS")
    || text_eq u (codes "STOP-LOSS")
    || text_eq u (codes "STOPLOSS")
    || text_eq u (codes "AUTO_SL")
    || text_eq u (codes "AUTO-SL")

unfoldable pub is_re_entry : Text → Bool
is_re_entry u =
    text_eq u (codes "RE")
    || text_eq u (codes "RE_ENTRY")
    || text_eq u (codes "RE-ENTRY")
    || text_eq u (codes "REENTRY")

-- A bull position is closed by selling, a bear position by buying; else the action stays as it was.
unfoldable pub closing_action : Text → Text
closing_action direction =
    if text_eq direction (codes "bull")
    then codes "sell"
    else if text_eq direction (codes "bear")
    then codes "buy"
    else codes ""

unfoldable pub classify : Text → Text → Intent
classify alert direction =
    let u = to_upper alert in
    if is_entry u
    then record {
      sig_type = entry;
      action = to_lower alert;
      trade_side = codes "open";
      tp_level = codes "";
    }
    else if is_tp u
    then record {
      sig_type = tp;
      action = closing_action direction;
      trade_side = codes "close";
      tp_level = u;
    }
    else if is_sl u
    then record {
      sig_type = sl;
      action = closing_action direction;
      trade_side = codes "close";
      tp_level = codes "";
    }
    else if is_re_entry u
    then record {
      sig_type = re_entry;
      action = if text_eq direction (codes "bull") then codes "buy" else codes "sell";
      trade_side = codes "open";
      tp_level = codes "";
    }
    else record {
      sig_type = unknown;
      action = codes "";
      trade_side = codes "";
      tp_level = codes "";
    }

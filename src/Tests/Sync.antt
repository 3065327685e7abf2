-- ===== src/Tests/Sync.antt =====
-- include/execution/position_manager.hpp: the comparison with the exchange on concrete inputs.
use tv_webhook_trader.Shared.{
  ◌≡◌, refl, inl, inr, Bool, true, false, if◌then◌else◌, List, [], ◌∷◌, none, some, Text, codes,
  text_eq, lookup, insert, erase, has_key, contains, ℤ, pos, ltb_ℤ, HasUniqueKeys,
}
use tv_webhook_trader.Shared.Double.{whole}
use tv_webhook_trader.Shared.Json.{Json, Outcome, done, thrown}
use tv_webhook_trader.Risk.Position.{ManagedPosition, Positions}
use tv_webhook_trader.Execution.Positions.Exchange.{
  ExchangePos, exchange_positions, rows, read_positions, read_position, parse_double, parse_int,
  file_position,
}
use tv_webhook_trader.Execution.Positions.Sync.{
  sync_positions_with_exchange, reconcile, mark_real, marked, is_there, sweep, visit_at, visit,
  turn, turned, remove_later, erase_all, is_ext, import_positions, names_of,
}
use tv_webhook_trader.Execution.Positions.Sync.Verdict.{IsJudged, sync-IsJudged}
use tv_webhook_trader.Execution.Positions.Sync.Answers.{HasSides}
use tv_webhook_trader.Execution.Positions.Sync.Real.{sync-AreThere}

-- An answer of the exchange: its positions, or a part of it.
data Answer : Type 0 where
  word : Text → Answer
  number : ℤ → Answer
  position : Text → Text → ℤ → Answer
  both : Answer → Answer → Answer
  reply : Text → Answer → Answer

has : Answer → Text → Bool
has (position s h n) key = text_eq key (codes "total")
has (reply code a) key = text_eq key (codes "data")
has _ key = false

at : Answer → Text → Answer
at (position s h n) key = number n
at (reply code a) key = a
at a key = a

value_text : Answer → Text → Text → Outcome Text
value_text (position s h n) key default = done (
    if text_eq key (codes "symbol")
    then s
    else if text_eq key (codes "holdSide")
    then h
    else default)
value_text (reply code a) key default = done code
value_text a key default = thrown

get_number : Answer → Outcome ℤ
get_number (number n) = done n
get_number a = thrown

get_text : Answer → Outcome Text
get_text (word s) = done s
get_text a = thrown

is_number : Answer → Bool
is_number (number n) = true
is_number a = false

is_string : Answer → Bool
is_string (word s) = true
is_string a = false

items : Answer → List Answer
items (both a b) = a ∷ b ∷ []
items a = []

abbrev answers : Json ℤ Answer
answers = record {
  parse = λ s. none;
  has = has;
  at = at;
  is_string = is_string;
  is_number = is_number;
  value_text = value_text;
  value_int = λ j k default. get_number j;
  value_double = λ j k default. get_number j;
  get_text = get_text;
  get_int = get_number;
  get_double = get_number;
  items = items;
}

-- The exchange holds BTCUSDT long and ETHUSDT short.
abbrev answer : Answer
answer = reply (codes "00000") (
    both (position (codes "BTCUSDT") (codes "long") (pos 2))
      (position (codes "ETHUSDT") (codes "short") (pos 3)))

abbrev at_exchange : Text → Text → ℤ → ExchangePos ℤ
at_exchange symbol side total = record {
  symbol = symbol;
  hold_side = side;
  total = total;
  avg_price = pos 0;
  leverage = pos 10;
}

abbrev listed : List (Text × ExchangePos ℤ)
listed =
    (codes "BTCUSDT:long", at_exchange (codes "BTCUSDT") (codes "long") (pos 2))
    ∷ (codes "ETHUSDT:short", at_exchange (codes "ETHUSDT") (codes "short") (pos 3))
    ∷ []

abbrev held : Text → Text → Bool → ManagedPosition ℤ
held symbol side is_real = record {
  symbol = symbol;
  timeframe = codes "60";
  side = side;
  entry_price = pos 100;
  quantity = pos 1;
  leverage = pos 10;
  sl_price = pos 0;
  tp1_price = pos 0;
  tier = codes "C";
  strategy = codes "sfx";
  opened_at = 0;
  is_real = is_real;
  exchange = codes "bitget";
  market_type = codes "futures";
}

-- A paper position that the exchange has by now, a real one that it lost, and one from the exchange
-- that was turned.
abbrev positions : Positions ℤ
positions =
    (codes "BTCUSDT_60_1", held (codes "BTCUSDT") (codes "long") false)
    ∷ (codes "XRPUSDT_60_2", held (codes "XRPUSDT") (codes "long") true)
    ∷ (codes "ETHUSDT_long_ext", held (codes "ETHUSDT") (codes "long") true)
    ∷ []

answered : exchange_positions answers answer ≡ done (some listed)
unfolding exchange_positions rows read_positions read_position parse_double parse_int file_position
    has at value_text get_number is_number is_string items text_eq insert ltb_ℤ
answered = refl

positions-HasUniqueKeys : HasUniqueKeys positions
unfolding has_key text_eq
positions-HasUniqueKeys = (refl, (refl, (refl, tt)))

listed-HasSides : HasSides listed
listed-HasSides = (inl refl, (inr refl, tt))

ordinary : is_ext (codes "XRPUSDT_60_2") ≡ false
unfolding is_ext text_eq
ordinary = refl

sync-IsJudged_example :
    IsJudged answers 5 answer
      (exchange_positions answers answer)
      (codes "XRPUSDT_60_2")
      positions
      (sync_positions_with_exchange answers 5 answer positions)
sync-IsJudged_example =
    sync-IsJudged answers 5 answer positions (codes "XRPUSDT_60_2") positions-HasUniqueKeys ordinary

abbrev turned_eth : ManagedPosition ℤ
turned_eth = record (held (codes "ETHUSDT") (codes "short") true) {
  entry_price = pos 0;
  quantity = pos 3;
}

-- The turned position has a new key.
found :
    lookup (codes "ETHUSDT_short_ext") (sync_positions_with_exchange answers 5 answer positions)
    ≡ some turned_eth
unfolding sync_positions_with_exchange reconcile exchange_positions rows read_positions
    read_position parse_double parse_int file_position has at value_text get_number is_number
    is_string items text_eq insert ltb_ℤ mark_real marked is_there sweep visit_at visit turn turned
    remove_later erase_all is_ext import_positions names_of lookup erase has_key contains
found = refl

sync-AreThere_example : is_there listed turned_eth ≡ true
sync-AreThere_example =
    sync-AreThere answers 5 answer listed positions answered listed-HasSides positions-HasUniqueKeys
      (codes "ETHUSDT_short_ext") turned_eth found refl

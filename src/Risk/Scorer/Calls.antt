-- ===== src/Risk/Scorer/Calls.antt =====
-- The calls that change a SymbolScorer, and what they tell it of the trades of one key.
use tv_webhook_trader.Shared.{
  ℕ, ◌+◌, ◌≡◌, refl, Bool, if◌then◌else◌, List, [], ◌∷◌, ◌++◌, Text, text_eq, arith,
}
use tv_webhook_trader.Shared.Double.{Double}
use tv_webhook_trader.Execution.Trades.{TradeRecord}
use tv_webhook_trader.Risk.Scorer.{SymbolScorer, compute_context_key}
use tv_webhook_trader.Risk.Scorer.Recording.{record_context_trade, record_realized_trade}
use tv_webhook_trader.Risk.Scorer.Scoring.{rescore_all}

-- A trade as record_context_trade gets it, under its key.
pub record ContextTrade (F : Type 0) : Type 0 where
  pub symbol : Text
  pub timeframe : Text
  pub direction : Text
  pub pnl : F
  pub is_win : Bool

-- The calls that change the scorer, with the readings of the clock.
pub data Call (F : Type 0) : Type 0 where
  context : Text → ContextTrade F → Call F
  realized : Text → Text → Text → F → F → F → Call F
  rescore : ℕ → Text → List (TradeRecord F) → Call F

module _ {F : Type 0} where
  abbrev pub key_of : ContextTrade F → Text
  key_of t = compute_context_key t.symbol t.timeframe t.direction

  -- What is known of the trades of a key, behind one more.
  abbrev pub with_own : Text → ContextTrade F → List (ContextTrade F) → List (ContextTrade F)
  with_own k t own = if text_eq (key_of t) k then own ++ t ∷ [] else own

  -- The trades of a key among the calls, in order.
  unfoldable pub own_trades : Text → List (ContextTrade F) → List (Call F) → List (ContextTrade F)
  own_trades k own [] = own
  own_trades k own (context time t ∷ cs) = own_trades k (with_own k t own) cs
  own_trades k own (realized s tf dir gross fee rr ∷ cs) = own_trades k own cs
  own_trades k own (rescore now time ts ∷ cs) = own_trades k own cs

  unfoldable pub count_won : List (ContextTrade F) → ℕ
  count_won [] = 0
  count_won (t ∷ ts) = (if t.is_win then 1 else 0) + count_won ts

  pub count_won-append :
      (own : List (ContextTrade F)) (t : ContextTrade F)
      → count_won (own ++ t ∷ []) ≡ count_won own + (if t.is_win then 1 else 0)
  unfolding count_won
  count_won-append [] t = omega arith
  count_won-append (s ∷ own) t = omega (arith, count_won-append own t)

module _ {F : Type 0} ⦃d : Double F⦄ where
  unfoldable pub total_of : F → List (ContextTrade F) → F
  total_of total [] = total
  total_of total (t ∷ ts) = total_of (d.add total t.pnl) ts

  pub total_of-append :
      (total : F) (own : List (ContextTrade F)) (t : ContextTrade F)
      → total_of total (own ++ t ∷ []) ≡ d.add (total_of total own) t.pnl
  unfolding total_of
  total_of-append total [] t = refl
  total_of-append total (s ∷ own) t = total_of-append (d.add total s.pnl) own t

  unfoldable pub answer : Call F → SymbolScorer F → SymbolScorer F
  answer (context time t) s =
      record_context_trade time t.symbol t.timeframe t.direction t.pnl t.is_win s
  answer (realized symbol tf dir gross fee rr) s =
      record_realized_trade symbol tf dir gross fee rr s
  answer (rescore now time ts) s = rescore_all now time ts s

  unfoldable pub answer_all : List (Call F) → SymbolScorer F → SymbolScorer F
  answer_all [] s = s
  answer_all (c ∷ cs) s = answer_all cs (answer c s)

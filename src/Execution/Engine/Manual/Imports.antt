-- ===== src/Execution/Engine/Manual/Imports.antt =====
-- Trades that are imported a second time.
use tv_webhook_trader.Shared.{
  ℕ, ◌≡◌, sym, refl, true, ◌||◌, if◌then◌else◌, List, [], ◌∷◌, ◌++◌, Text, arith, All, subst,
}
use tv_webhook_trader.Shared.Double.{Double}
use tv_webhook_trader.Execution.Trades.{TradeRecord, Recorder}
use tv_webhook_trader.Execution.Engine.{Engine}
use tv_webhook_trader.Execution.Engine.Manual.{
  is_same, is_duplicate, is_passed, kept_trade, import_rounds, import_trades,
}

module _ {F : Type 0} ⦃d : Double F⦄ where
  -- A trade whose figures are numbers is found to be the same as itself.
  abbrev pub AreNumbers : List (TradeRecord F) → Type 0
  AreNumbers = All (λ t. is_same t t ≡ true)

  is_duplicate-append :
      (ext t : TradeRecord F) (ts : List (TradeRecord F))
      → is_duplicate ext (ts ++ t ∷ []) ≡ (is_duplicate ext ts || is_same ext t)
  unfolding is_duplicate
  is_duplicate-append ext t [] = ground arith
  is_duplicate-append ext t (x ∷ ts) = ground (arith, is_duplicate-append ext t ts)

  is_passed-step :
      (ext t : TradeRecord F) (r : Recorder F)
      → is_passed ext r ≡ true
      → is_passed ext (if is_passed t r then r else kept_trade t r) ≡ true
  unfolding is_passed
  is_passed-step ext t r h = ground (arith, is_duplicate-append ext t r.trades)

  is_passed-rounds :
      (ext : TradeRecord F) (ts : List (TradeRecord F)) (r : Recorder F)
      → is_passed ext r ≡ true
      → is_passed ext (import_rounds ts r).0 ≡ true
  unfolding import_rounds
  is_passed-rounds ext [] r h = h
  is_passed-rounds ext (t ∷ ts) r h =
      is_passed-rounds ext ts (if is_passed t r then r else kept_trade t r)
        (is_passed-step ext t r h)

  is_passed_self :
      (t : TradeRecord F) (r : Recorder F)
      → is_same t t ≡ true
      → is_passed t (if is_passed t r then r else kept_trade t r) ≡ true
  unfolding is_passed
  is_passed_self t r h = ground (arith, is_duplicate-append t t r.trades)

  -- Behind the loop each of its trades would be passed over.
  import_rounds-known :
      (ts : List (TradeRecord F)) (r : Recorder F)
      → AreNumbers ts
      → All (λ t. is_passed t (import_rounds ts r).0 ≡ true) ts
  unfolding import_rounds
  import_rounds-known [] r v = tt
  import_rounds-known (t ∷ ts) r v =
      let next = if is_passed t r then r else kept_trade t r in
      (is_passed-rounds t ts next (is_passed_self t r v.0), import_rounds-known ts next v.1)

  import_rounds-passed :
      (ts : List (TradeRecord F)) (r : Recorder F)
      → All (λ t. is_passed t r ≡ true) ts
      → import_rounds ts r ≡ (r, 0)
  unfolding import_rounds
  import_rounds-passed [] r v = refl
  import_rounds-passed (t ∷ ts) r v = rw (v.0, import_rounds-passed ts r v.1) refl

  import_trades-recorder :
      (now : ℕ) (time : Text) (ts : List (TradeRecord F)) (e : Engine F)
      → (import_trades now time ts e).0.recorder ≡ (import_rounds ts e.recorder).0
  unfolding import_trades
  import_trades-recorder now time ts e = ground arith

  -- Trades that were imported are not imported again: the same import a second time counts none and
  -- leaves the engine as it is, where the figures of the trades are numbers.
  pub import_trades-again :
      (now later : ℕ) (time time' : Text) (ts : List (TradeRecord F)) (e : Engine F)
      → AreNumbers ts
      → let first = import_trades now time ts e in
        import_trades later time' ts first.0 ≡ (first.0, 0)
  unfolding import_trades
  import_trades-again now later time time' ts e v =
      let first = import_trades now time ts e in
      let known : All (λ t. is_passed t first.0.recorder ≡ true) ts =
        subst (λ r. All (λ t. is_passed t r ≡ true) ts) (sym (import_trades-recorder now time ts e))
          (import_rounds-known ts e.recorder v) in
      let none_new = import_rounds-passed ts first.0.recorder known in rw none_new refl

-- ===== src/Execution/Engine/Accounts.antt =====
-- Where the balances and the trades of the engine come from.
use tv_webhook_trader.Shared.{◌≡◌, refl, ap, sym, ◌∙◌, [], ◌∷◌, ◌++◌, Text, codes}
use tv_webhook_trader.Shared.Double.{Double, IsExact}
use tv_webhook_trader.Webhook.Signal.{WebhookSignal}
use tv_webhook_trader.Risk.Position.{ManagedPosition}
use tv_webhook_trader.Execution.Trades.{TradeRecord, trade_record}
use tv_webhook_trader.Execution.Engine.{SpotAccount}
use tv_webhook_trader.Execution.Engine.Spot.{sell_spot}

module _ {F : Type 0} ⦃d : Double F⦄ where
  -- What a sale is said to have cost.
  abbrev pub sale_fee : F → F → F
  sale_fee exit qty = d.mul (d.mul exit qty) (d.decimal 1 3)

  -- The result that the sale's record shows.
  abbrev pub sale_pnl : ManagedPosition F → F → F → F
  sale_pnl p exit qty = d.sub (d.mul (d.sub exit p.entry_price) qty) (sale_fee exit qty)

  -- The account after the sale.
  pub record IsSold (p : ManagedPosition F) (exit qty : F) (a after : SpotAccount F) : Type 0 where
    pub sale : TradeRecord F
    pub noted : after.trades ≡ a.trades ++ sale ∷ []
    pub of_symbol : sale.symbol ≡ p.symbol
    pub charged : sale.fee ≡ sale_fee exit qty
    pub earned : sale.pnl ≡ sale_pnl p exit qty
    pub paid_in :
        after.balance ≡ d.add a.balance (d.add (d.add sale.pnl sale.fee) (d.mul p.entry_price qty))
    pub held : after.positions ≡ a.positions

  -- Under exact arithmetic, a spot sale adds one record at the end of the account's trades, in which the
  -- fee is a thousandth of what was sold and the result is the gain less that fee; and the balance gets
  -- what was paid for the quantity, the result of that record, and also its fee: the record takes the fee
  -- off, the account never pays it.
  pub sell_spot-balance :
      IsExact d
      → (reason : Text) (sig : WebhookSignal F) (p : ManagedPosition F) (exit qty : F)
        (a : SpotAccount F)
      → IsSold p exit qty a (sell_spot reason sig p exit qty a)
  unfolding sell_spot trade_record
  sell_spot-balance laws reason sig p exit qty a =
      let gain = d.mul (d.sub exit p.entry_price) qty in
      let cost = d.mul p.entry_price qty in
      let t =
        trade_record p.symbol p.timeframe reason p.entry_price exit qty (sale_pnl p exit qty)
          (sale_fee exit qty) p.strategy in
      record {
        sale = record t { exchange = sig.exchange; market_type = codes "spot" };
        noted = refl;
        of_symbol = refl;
        charged = refl;
        earned = refl;
        paid_in = sym (
            ap (d.add a.balance) (
              ap (λ g. d.add g cost) (laws.sub-add gain (sale_fee exit qty))
              ∙ (sym (laws.add-mul (d.sub exit p.entry_price) p.entry_price qty)
                  ∙ ap (λ x. d.mul x qty) (laws.sub-add exit p.entry_price))));
        held = refl;
      }

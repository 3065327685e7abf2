-- ===== src/Webhook/Parser/Laws.antt =====
-- What a parsed signal says, and a string price that is never read.
use tv_webhook_trader.Shared.{
  ◌≡◌, subst, refl, Bool, true, false, ◌&&◌, not, Option, some, Text, codes, pos, text_eq, is_empty,
  arith, inl, inr, ◌⊎◌,
}
use tv_webhook_trader.Shared.Double.{Double, nought}
use tv_webhook_trader.Shared.Json.{
  Outcome, done, thrown, Json, thrown-bind, bind-done, Outcome-cases,
}
use tv_webhook_trader.Webhook.Signal.{
  SignalType, WebhookSignal, entry, tp, sl, re_entry, unknown, is_valid, is_valid_type,
}
use tv_webhook_trader.Webhook.Classify.{Intent}
use tv_webhook_trader.Webhook.Classify.Meaning.{IsMeant, classify-IsMeant}
use tv_webhook_trader.Webhook.Classify.Names.{IsNamed, classify-IsNamed}
use tv_webhook_trader.Webhook.Market.{normalize_symbol}
use tv_webhook_trader.Webhook.Market.Symbols.{detect_exchange_market_lem}
use tv_webhook_trader.Webhook.Parser.{
  SfxFields, sfx_signal, read_sfx, value_or, current_rating, parse_price_field, parse_sfx,
  parse_generic,
}

abbrev is_known : SignalType → Bool
is_known unknown = false
is_known _ = true

is_valid_type-is_known :
    (t : SignalType) (action : Text)
    → ((t ≡ entry) ⊎ (t ≡ re_entry) → (action ≡ codes "buy") ⊎ (action ≡ codes "sell"))
    → is_valid_type t action ≡ is_known t
unfolding is_valid_type text_eq
is_valid_type-is_known entry action h = elim (h (inl refl)) [ inl e ↦ rw e | inr e ↦ rw e ]
is_valid_type-is_known re_entry action h = elim (h (inr refl)) [ inl e ↦ rw e | inr e ↦ rw e ]
is_valid_type-is_known tp action h = refl
is_valid_type-is_known sl action h = refl
is_valid_type-is_known unknown action h = refl

module _ {F J : Type 0} ⦃d : Double F⦄ (lib : Json F J) where
  open lib use {has, at, is_string, value_double, value_int, value_text}

  abbrev pub intent_of : WebhookSignal F → Intent
  intent_of s = record {
    sig_type = s.sig_type;
    action = s.action;
    trade_side = s.trade_side;
    tp_level = s.tp_level;
  }

  -- Where the fields of a signal come from.
  pub record IsFrom (j : J) (s : WebhookSignal F) : Type 0 where
    pub ticker_of : value_text j (codes "ticker") (codes "") ≡ done s.ticker
    pub timeframe_of : value_text j (codes "timeframe") (codes "") ≡ done s.timeframe
    pub alert_of : value_text j (codes "alert") (codes "") ≡ done s.alert
    pub direction_of : value_text j (codes "signal_direction") (codes "") ≡ done s.signal_direction
    pub price_of : value_double j (codes "close") nought ≡ done s.price

  -- The same of the fields that were read, with nothing to say of an exception.
  record IsRead (j : J) (f : SfxFields F) : Type 0 where
    ticker_at : value_text j (codes "ticker") (codes "") ≡ done f.ticker
    timeframe_at : value_text j (codes "timeframe") (codes "") ≡ done f.timeframe
    alert_at : value_text j (codes "alert") (codes "") ≡ done f.alert
    direction_at : value_text j (codes "signal_direction") (codes "") ≡ done f.direction
    price_at : value_double j (codes "close") nought ≡ done f.price

  abbrev IsReadIn : J → Outcome (SfxFields F) → Type 0
  IsReadIn j (done f) = IsRead j f
  IsReadIn j thrown = Unit

  read_sfx-IsRead : (j : J) (f : SfxFields F) → read_sfx lib j ≡ done f → IsRead j f
  unfolding read_sfx
  read_sfx-IsRead j f e =
      let (a0, e0, r0) = bind-done (value_text j (codes "algorithm") (codes "SFX")) _ f e in
      let (a1, e1, r1) = bind-done (value_text j (codes "ticker") (codes "")) _ f r0 in
      let (a2, e2, r2) = bind-done (value_text j (codes "ticker_full") (codes "")) _ f r1 in
      let (a3, e3, r3) = bind-done (value_int j (codes "unix_time") (pos 0)) _ f r2 in
      let (a4, e4, r4) = bind-done (value_text j (codes "timestamp") (codes "")) _ f r3 in
      let (a5, e5, r5) = bind-done (value_text j (codes "currency") (codes "USDT")) _ f r4 in
      let (a6, e6, r6) = bind-done (value_text j (codes "timeframe") (codes "")) _ f r5 in
      let (a7, e7, r7) = bind-done (value_text j (codes "type") (codes "crypto")) _ f r6 in
      let (a8, e8, r8) = bind-done (value_text j (codes "alert") (codes "")) _ f r7 in
      let (a9, e9, r9) = bind-done (value_text j (codes "signal_direction") (codes "")) _ f r8 in
      let (a10, e10, r10) = bind-done (current_rating lib j) _ f r9 in
      let (a11, e11, r11) = bind-done (value_double j (codes "close") nought) _ f r10 in
      let (a12, e12, r12) = bind-done (parse_price_field lib j (codes "entry_price")) _ f r11 in
      let (a13, e13, r13) = bind-done (parse_price_field lib j (codes "tp1")) _ f r12 in
      let (a14, e14, r14) = bind-done (parse_price_field lib j (codes "tp2")) _ f r13 in
      let (a15, e15, r15) = bind-done (parse_price_field lib j (codes "tp3")) _ f r14 in
      let (a16, e16, r16) = bind-done (parse_price_field lib j (codes "sl")) _ f r15 in
      let (a17, e17, r17) =
        bind-done (value_or lib (codes "token") (codes "secret") (codes "") j) _ f r16 in
      let (a18, e18, r18) =
        bind-done (value_or lib (codes "strategy") (codes "alert_name") (codes "unknown") j) _ f
          r17 in
      subst (IsReadIn j) r18 (record {
        ticker_at = e1;
        timeframe_at = e6;
        alert_at = e8;
        direction_at = e9;
        price_at = e11;
      })

  sfx_signal-IsFrom :
      (j : J) (sig : WebhookSignal F) (f : SfxFields F) → IsRead j f → IsFrom j (sfx_signal f sig)
  unfolding sfx_signal
  sfx_signal-IsFrom j sig f v = record {
    ticker_of = v.ticker_at;
    timeframe_of = v.timeframe_at;
    alert_of = v.alert_at;
    direction_of = v.direction_at;
    price_of = v.price_at;
  }

  pub record IsReadable (s : WebhookSignal F) : Type 0 where
    pub named : IsNamed s.alert s.signal_direction (intent_of s)
    pub intent : IsMeant s.signal_direction (intent_of s)
    pub symbol_of : s.symbol ≡ normalize_symbol s.ticker
    pub spot_at_upbit : s.market_type ≡ codes "spot" → s.exchange ≡ codes "upbit"
    pub valid :
        is_valid s ≡ (not (is_empty s.symbol) && not (d.le s.price nought) && is_known s.sig_type)

  sfx_signal-IsReadable : (f : SfxFields F) (sig : WebhookSignal F) → IsReadable (sfx_signal f sig)
  unfolding sfx_signal is_valid
  sfx_signal-IsReadable f sig =
      let meant = classify-IsMeant f.alert f.direction in
      let market = detect_exchange_market_lem f.ticker_full f.ticker in
      record {
        named = classify-IsNamed f.alert f.direction;
        intent = meant;
        symbol_of = refl;
        spot_at_upbit = market.0;
        valid =
            ground (
              arith,
              is_valid_type-is_known _ _ (λ opening. meant.definite (meant.opens.1 opening)),
            );
      }

  -- Every signal that comes out of an SFX body has the body's alert, direction, ticker, timeframe and close
  -- price. It has the kind that the lists of names give its alert, in letters of either case, and does what that kind of alert says: entries and re-entries open, profit and
  -- stop signals close against the direction. It has the symbol of its ticker, is a spot signal only at
  -- Upbit, and is valid exactly when it has a symbol, a price that is not zero or below, and an alert of
  -- one of the kinds.
  pub parse_sfx-IsReadable :
      (j : J) (sig : WebhookSignal F) (r : Option (WebhookSignal F))
      → parse_sfx lib j sig ≡ done r
      → (s : WebhookSignal F) × (r ≡ some s) × IsFrom j s × IsReadable s
  unfolding parse_sfx
  parse_sfx-IsReadable j sig r e = elim (Outcome-cases (read_sfx lib j)) [
    | inl (f, known) ↦
        let same : done (some (sfx_signal f sig)) ≡ done r = rw known at e in
        (
          sfx_signal f sig,
          cc,
          sfx_signal-IsFrom j sig f (read_sfx-IsRead j f known),
          sfx_signal-IsReadable f sig,
        )
    | inr t ↦ absurd (cc (rw t at e))
  ]

  -- The documented behaviour of `value` on a string where a number is asked for: it throws.
  pub record RefusesText : Type 0 where
    pub value_double-text :
        (j : J) (key : Text) (default : F)
        → has j key ≡ true
        → is_string (at j key) ≡ true
        → value_double j key default ≡ thrown

  -- A price given as a string is never read: `value` throws on it before the code that would read
  -- the string is reached, whatever else the body holds.
  pub parse_generic-text_price :
      RefusesText
      → (j : J) (sig : WebhookSignal F) → has j (codes "price") ≡ true
      → is_string (at j (codes "price")) ≡ true
      → parse_generic lib j sig ≡ thrown
  unfolding parse_generic
  parse_generic-text_price refuses j sig h k =
      thrown-bind (value_text j (codes "action") (codes "")) _ λ action.
        thrown-bind (value_text j (codes "symbol") (codes "")) _ λ symbol.
          thrown-bind (value_text j (codes "trade_side") (codes "open")) _
            λ trade_side. rw (refuses.value_double-text j (codes "price") nought h k)

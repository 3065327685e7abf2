-- ===== src/Webhook/Classify/Meaning.antt =====
-- What a classified alert may do.
use tv_webhook_trader.Shared.{
  ◌≡◌, refl, ap, sym, ◌∙◌, ◌↔◌, ◌⊎◌, inl, inr, true, Text, codes, text_eq, text_eq_iff, upper_char,
  lower_char, arith, [], ◌∷◌, Bool-cases, ℕ,
}
use tv_webhook_trader.Webhook.Signal.{entry, tp, sl, re_entry}
use tv_webhook_trader.Webhook.Classify.{
  Intent, classify, to_upper, to_lower, is_entry, closing_action,
}

lower-upper_char : (c : ℕ) → lower_char (upper_char c) ≡ lower_char c
unfolding lower_char upper_char
lower-upper_char c = ground arith

lower-upper : (s : Text) → to_lower (to_upper s) ≡ to_lower s
unfolding to_lower to_upper
lower-upper [] = refl
lower-upper (c ∷ s) = cc (lower-upper_char c, lower-upper s)

-- Alerts that differ in the case of their letters only are one alert.
pub classify_case :
    (a b direction : Text) → to_upper a ≡ to_upper b → classify a direction ≡ classify b direction
unfolding classify
classify_case a b direction e =
    let low : to_lower a ≡ to_lower b = sym (lower-upper a) ∙ ap to_lower e ∙ lower-upper b in cc

-- What each kind of signal says: entries open with a definite action; profit and stop signals close,
-- against the direction if one is given.
pub record IsMeant (direction : Text) (i : Intent) : Type 0 where
  pub opens : (i.trade_side ≡ codes "open") ↔ ((i.sig_type ≡ entry) ⊎ (i.sig_type ≡ re_entry))
  pub closes : (i.trade_side ≡ codes "close") ↔ ((i.sig_type ≡ tp) ⊎ (i.sig_type ≡ sl))
  pub definite : i.trade_side ≡ codes "open" → (i.action ≡ codes "buy") ⊎ (i.action ≡ codes "sell")
  pub against_bull :
      i.trade_side ≡ codes "close" → direction ≡ codes "bull" → i.action ≡ codes "sell"
  pub against_bear :
      i.trade_side ≡ codes "close" → direction ≡ codes "bear" → i.action ≡ codes "buy"

pub entry_action :
    (a : Text)
    → is_entry (to_upper a) ≡ true
    → (to_lower a ≡ codes "buy") ⊎ (to_lower a ≡ codes "sell")
unfolding is_entry to_lower lower_char
entry_action a h =
    let low = lower-upper a in
    elim (Bool-cases (text_eq (to_upper a) (codes "BUY"))) [
      | inl e ↦ inl (sym low ∙ ap to_lower ((text_eq_iff _ _).0 e))
      | inr e ↦
          let sells : text_eq (to_upper a) (codes "SELL") ≡ true = ground arith in
          inr (sym low ∙ ap to_lower ((text_eq_iff _ _).0 sells))
    ]

closing_action_lem :
    (direction : Text)
    → (direction ≡ codes "bull" → closing_action direction ≡ codes "sell")
      × (direction ≡ codes "bear" → closing_action direction ≡ codes "buy")
unfolding closing_action text_eq
closing_action_lem direction = (λ e. rw e, λ e. rw e)

-- Whatever the alert and the direction are, an alert opens exactly as an entry or a re-entry, then to
-- buy or to sell, and closes exactly as a profit or a stop signal, then against the direction.
pub classify-IsMeant : (alert direction : Text) → IsMeant direction (classify alert direction)
unfolding classify
classify-IsMeant alert direction = ground (arith, entry_action alert, closing_action_lem direction)

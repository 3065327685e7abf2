-- ===== src/Webhook/Classify/Names.antt =====
-- Which alerts are of which kind.
use tv_webhook_trader.Shared.{
  ◌≡◌, refl, ◌↔◌, inl, inr, true, false, if◌then◌else◌, List, [], ◌∷◌, Text, codes, text_eq,
  text_eq_iff, Any, arith,
}
use tv_webhook_trader.Webhook.Signal.{entry, tp, sl, re_entry}
use tv_webhook_trader.Webhook.Classify.{
  Intent, classify, to_upper, to_lower, is_entry, is_tp, is_sl, is_re_entry,
}

abbrev pub IsOneOf : List Text → Text → Type 0
IsOneOf names u = Any (λ n. u ≡ n) names

abbrev pub entry_names : List Text
entry_names = codes "BUY" ∷ codes "SELL" ∷ []

abbrev pub tp_names : List Text
tp_names = codes "TP1" ∷ codes "TP2" ∷ codes "TP3" ∷ []

abbrev pub sl_names : List Text
sl_names =
    codes "SL"
    ∷ codes "STOP_LOSS"
    ∷ codes "STOP-LOSS"
    ∷ codes "STOPLOSS"
    ∷ codes "AUTO_SL"
    ∷ codes "AUTO-SL"
    ∷ []

abbrev pub re_entry_names : List Text
re_entry_names = codes "RE" ∷ codes "RE_ENTRY" ∷ codes "RE-ENTRY" ∷ codes "REENTRY" ∷ []

is_entry-IsOneOf : (u : Text) → is_entry u ≡ true → IsOneOf entry_names u
unfolding is_entry
is_entry-IsOneOf u h =
    ground (arith, (text_eq_iff u (codes "BUY")).0, (text_eq_iff u (codes "SELL")).0)

is_tp-IsOneOf : (u : Text) → is_tp u ≡ true → IsOneOf tp_names u
unfolding is_tp
is_tp-IsOneOf u h = ground (
  arith,
  (text_eq_iff u (codes "TP1")).0,
  (text_eq_iff u (codes "TP2")).0,
  (text_eq_iff u (codes "TP3")).0,
)

is_sl-IsOneOf : (u : Text) → is_sl u ≡ true → IsOneOf sl_names u
unfolding is_sl
is_sl-IsOneOf u h = ground (
  arith,
  (text_eq_iff u (codes "SL")).0,
  (text_eq_iff u (codes "STOP_LOSS")).0,
  (text_eq_iff u (codes "STOP-LOSS")).0,
  (text_eq_iff u (codes "STOPLOSS")).0,
  (text_eq_iff u (codes "AUTO_SL")).0,
  (text_eq_iff u (codes "AUTO-SL")).0,
)

is_re_entry-IsOneOf : (u : Text) → is_re_entry u ≡ true → IsOneOf re_entry_names u
unfolding is_re_entry
is_re_entry-IsOneOf u h = ground (
  arith,
  (text_eq_iff u (codes "RE")).0,
  (text_eq_iff u (codes "RE_ENTRY")).0,
  (text_eq_iff u (codes "RE-ENTRY")).0,
  (text_eq_iff u (codes "REENTRY")).0,
)

entry_tests : (u : Text) → IsOneOf entry_names u → is_entry u ≡ true
unfolding is_entry text_eq
entry_tests u (inl e) = rw e refl
entry_tests u (inr (inl e)) = rw e refl
entry_tests u (inr (inr h)) = absurd h

tp_tests : (u : Text) → IsOneOf tp_names u → (is_entry u ≡ false) × (is_tp u ≡ true)
unfolding is_entry is_tp text_eq
tp_tests u (inl e) = rw e (refl, refl)
tp_tests u (inr (inl e)) = rw e (refl, refl)
tp_tests u (inr (inr (inl e))) = rw e (refl, refl)
tp_tests u (inr (inr (inr h))) = absurd h

abbrev IsStop : Text → Type 0
IsStop u = (is_entry u ≡ false) × (is_tp u ≡ false) × (is_sl u ≡ true)

sl_tests : (u : Text) → IsOneOf sl_names u → IsStop u
unfolding is_entry is_tp is_sl text_eq
sl_tests u (inl e) = rw e (refl, refl, refl)
sl_tests u (inr (inl e)) = rw e (refl, refl, refl)
sl_tests u (inr (inr (inl e))) = rw e (refl, refl, refl)
sl_tests u (inr (inr (inr (inl e)))) = rw e (refl, refl, refl)
sl_tests u (inr (inr (inr (inr (inl e))))) = rw e (refl, refl, refl)
sl_tests u (inr (inr (inr (inr (inr (inl e)))))) = rw e (refl, refl, refl)
sl_tests u (inr (inr (inr (inr (inr (inr h)))))) = absurd h

abbrev IsAgain : Text → Type 0
IsAgain u = (is_entry u ≡ false) × (is_tp u ≡ false) × (is_sl u ≡ false) × (is_re_entry u ≡ true)

re_entry_tests : (u : Text) → IsOneOf re_entry_names u → IsAgain u
unfolding is_entry is_tp is_sl is_re_entry text_eq
re_entry_tests u (inl e) = rw e (refl, refl, refl, refl)
re_entry_tests u (inr (inl e)) = rw e (refl, refl, refl, refl)
re_entry_tests u (inr (inr (inl e))) = rw e (refl, refl, refl, refl)
re_entry_tests u (inr (inr (inr (inl e)))) = rw e (refl, refl, refl, refl)
re_entry_tests u (inr (inr (inr (inr h)))) = absurd h

-- The kind of a signal is that of its alert in capital letters, by these four lists; an entry does what
-- its alert says, a profit signal is for the level that its alert names, and a re-entry buys when the
-- direction is bull and sells otherwise.
pub record IsNamed (alert direction : Text) (i : Intent) : Type 0 where
  pub entries : (i.sig_type ≡ entry) ↔ IsOneOf entry_names (to_upper alert)
  pub profits : (i.sig_type ≡ tp) ↔ IsOneOf tp_names (to_upper alert)
  pub stops : (i.sig_type ≡ sl) ↔ IsOneOf sl_names (to_upper alert)
  pub re_entries : (i.sig_type ≡ re_entry) ↔ IsOneOf re_entry_names (to_upper alert)
  pub as_said : i.sig_type ≡ entry → i.action ≡ to_lower alert
  pub level : i.sig_type ≡ tp → i.tp_level ≡ to_upper alert
  pub again :
      i.sig_type ≡ re_entry
      → i.action ≡ (if text_eq direction (codes "bull") then codes "buy" else codes "sell")

pub classify-IsNamed : (alert direction : Text) → IsNamed alert direction (classify alert direction)
unfolding classify
classify-IsNamed alert direction =
    let u = to_upper alert in
    record {
      entries = (λ e. is_entry-IsOneOf u (ground arith), λ h. rw (entry_tests u h) refl);
      profits =
          (λ e. is_tp-IsOneOf u (ground arith), λ h. let t = tp_tests u h in rw (t.0, t.1) refl);
      stops = (
        λ e. is_sl-IsOneOf u (ground arith),
        λ h. let t = sl_tests u h in rw (t.0, t.1, t.2) refl,
      );
      re_entries = (
        λ e. is_re_entry-IsOneOf u (ground arith),
        λ h. let t = re_entry_tests u h in rw (t.0, t.1, t.2, t.3) refl,
      );
      as_said = λ e. ground arith;
      level = λ e. ground arith;
      again = λ e. ground arith;
    }

-- ===== src/Webhook/Market/Symbols.antt =====
-- Tickers in their four spellings name one symbol, and the spot market is Upbit's.
use tv_webhook_trader.Shared.{
  ℕ, zero, suc, ◌≤◌, ◌-◌, ◌≡◌, ◌≢◌, refl, ap, ◌∙◌, ◌⊎◌, true, false, List, [], ◌∷◌, ◌++◌, none,
  some, Text, codes, text_eq, text_eq_iff, length, last_n, drop_last_n, arith, All, length-append,
  take, drop, take-append_self,
}
use tv_webhook_trader.Webhook.Market.{
  detect_exchange, is_perpetual, is_krw_pair, detect_exchange_market, behind_colon,
  normalize_symbol, strip_suffix, strip_exchange,
}
use mathlib.Core.List.{append_assoc}

-- A signal for the spot market is for Upbit; a pair in KRW that is no perpetual is such a signal.
pub detect_exchange_market_lem :
    (ticker_full ticker : Text)
    → let m = detect_exchange_market ticker_full ticker in
      (m.1 ≡ codes "spot" → m.0 ≡ codes "upbit")
      × ((m.1 ≡ codes "spot") ⊎ (m.1 ≡ codes "futures"))
      × (is_perpetual ticker ≡ true → m.1 ≡ codes "futures")
      × (is_perpetual ticker ≡ false
          → is_krw_pair ticker ≡ true
          → m ≡ (codes "upbit", codes "spot"))
unfolding detect_exchange_market
detect_exchange_market_lem ticker_full ticker =
    ground (arith, text_eq_iff (detect_exchange ticker_full) (codes "upbit"))

drop-append-left {ℓ} :
    {A : Type ℓ} (n : ℕ) (xs ys : List A)
    → length xs ≤ n
    → drop n (xs ++ ys) ≡ drop (n - length xs) ys
drop-append-left n [] ys h = ap (λ k. drop k ys) (omega arith)
drop-append-left zero (x ∷ xs) ys h = absurd (omega arith)
drop-append-left (suc n) (x ∷ xs) ys h =
    drop-append-left n xs ys (omega arith) ∙ ap (λ k. drop k ys) (omega arith)

last_n-append : (p s : Text) → 2 ≤ length s → last_n 2 (p ++ s) ≡ last_n 2 s
last_n-append p s h =
    let start : length (p ++ s) - 2 - length p ≡ length s - 2 = omega (arith, length-append p s) in
    drop-append-left (length (p ++ s) - 2) p s (omega (arith, length-append p s))
    ∙ ap (λ k. drop k s) start

abbrev HasNoColon : Text → Type 0
HasNoColon = All (λ c. c ≢ b':')

behind_colon-none : (s : Text) → HasNoColon s → behind_colon s ≡ none
unfolding behind_colon
behind_colon-none [] h = refl
behind_colon-none (c ∷ s) h = ground (arith, behind_colon-none s h.1)

behind_colon-some : (e s : Text) → HasNoColon e → behind_colon (e ++ b':' ∷ s) ≡ some s
unfolding behind_colon
behind_colon-some [] s h = refl
behind_colon-some (c ∷ e) s h = ground (arith, behind_colon-some e s h.1)

-- A plain symbol: two bytes or more, no colon, and no suffix ".P".
pub record IsSymbol (s : Text) : Type 0 where
  pub long : 2 ≤ length s
  pub no_suffix : text_eq (last_n 2 s) (codes ".P") ≡ false
  pub no_colon : HasNoColon s

is_perpetual-false :
    (p s : Text)
    → 2 ≤ length s
    → text_eq (last_n 2 s) (codes ".P") ≡ false
    → is_perpetual (p ++ s) ≡ false
unfolding is_perpetual
is_perpetual-false p s h n = rw (last_n-append p s h) (rw n (ground arith))

is_perpetual-suffix : (s : Text) → 1 ≤ length s → is_perpetual (s ++ codes ".P") ≡ true
unfolding is_perpetual text_eq
is_perpetual-suffix s h =
    rw (last_n-append s (codes ".P") (omega arith)) (ground (arith, length-append s (codes ".P")))

drop_last_n-suffix : (s : Text) → drop_last_n 2 (s ++ codes ".P") ≡ s
drop_last_n-suffix s =
    ap (λ k. take k (s ++ codes ".P")) (omega (arith, length-append s (codes ".P")))
    ∙ take-append_self s (codes ".P")

strip_suffix-none : (t : Text) → is_perpetual t ≡ false → strip_suffix t ≡ t
unfolding strip_suffix
strip_suffix-none t h = rw h

strip_suffix-some : (s : Text) → 1 ≤ length s → strip_suffix (s ++ codes ".P") ≡ s
unfolding strip_suffix
strip_suffix-some s h = rw (is_perpetual-suffix s h) (drop_last_n-suffix s)

strip_exchange-none : (s : Text) → HasNoColon s → strip_exchange s ≡ s
unfolding strip_exchange
strip_exchange-none s h = rw (behind_colon-none s h, strip_exchange)

strip_exchange-some : (e s : Text) → HasNoColon e → strip_exchange (e ++ b':' ∷ s) ≡ s
unfolding strip_exchange
strip_exchange-some e s h = rw (behind_colon-some e s h, strip_exchange)

normalize_symbol-eq : (t : Text) → normalize_symbol t ≡ strip_exchange (strip_suffix t)
unfolding normalize_symbol
normalize_symbol-eq t = refl

-- With an exchange in front or not, with the suffix of a perpetual or not, a ticker is the ticker of
-- its symbol, and a symbol is its own.
pub normalize_symbol_lem :
    (e s : Text)
    → HasNoColon e
    → IsSymbol s
    → (normalize_symbol s ≡ s)
      × (normalize_symbol (s ++ codes ".P") ≡ s)
      × (normalize_symbol (e ++ b':' ∷ s) ≡ s)
      × (normalize_symbol ((e ++ b':' ∷ s) ++ codes ".P") ≡ s)
normalize_symbol_lem e s h v =
    let alone = strip_suffix-none s (is_perpetual-false [] s v.long v.no_suffix) in
    let full : Text = e ++ b':' ∷ s in
    let front : is_perpetual full ≡ false =
      rw (← append_assoc e (b':' ∷ []) s)
        (is_perpetual-false (e ++ b':' ∷ []) s v.long v.no_suffix) in
    let long : 1 ≤ length full = omega (arith, length-append e (b':' ∷ s)) in
    let own = strip_exchange-none s v.no_colon in
    let other = strip_exchange-some e s h in
    (
      normalize_symbol-eq s ∙ ap strip_exchange alone ∙ own,
      normalize_symbol-eq _ ∙ ap strip_exchange (strip_suffix-some s (omega (arith, v.long))) ∙ own,
      normalize_symbol-eq _ ∙ ap strip_exchange (strip_suffix-none full front) ∙ other,
      normalize_symbol-eq _ ∙ ap strip_exchange (strip_suffix-some full long) ∙ other,
    )

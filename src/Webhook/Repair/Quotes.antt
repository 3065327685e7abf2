-- ===== src/Webhook/Repair/Quotes.antt =====
-- What the two repairs do to a text.
use tv_webhook_trader.Shared.{
  ℕ, ◌≡◌, ◌≢◌, refl, ap, ◌∙◌, Bool, true, false, ◌&&◌, if◌then◌else◌, [], ◌∷◌, ◌++◌, Text, ◌==◌,
  arith, All,
}
use tv_webhook_trader.Webhook.Repair.{
  collapse, sanitize, blanks_then, after_quote_colon, next_key, seek, gap, value, fix_quotes,
}

-- No two quotes stand side by side, and none at the head if a quote stands before it.
abbrev pub NoDouble : Bool → Text → Type 0
NoDouble q [] = Unit
NoDouble q (c ∷ s) = (q ≡ true → c ≢ b'"') × NoDouble (c == b'"') s

NoDouble-step :
    (q b : Bool) (c : ℕ) (r : Text)
    → (c == b'"') ≡ b
    → NoDouble b r
    → NoDouble q (if q && b then r else c ∷ r)
NoDouble-step true true c r e h = h
NoDouble-step true false c r e h = (λ f. ground arith, rw e h)
NoDouble-step false b c r e h = (λ f. cc, rw e h)

collapse-NoDouble : (q : Bool) (s : Text) → NoDouble q (collapse q s)
unfolding collapse
collapse-NoDouble q [] = tt
collapse-NoDouble q (c ∷ s) = NoDouble-step q (c == b'"') c _ refl (collapse-NoDouble (c == b'"') s)

collapse_id : (q : Bool) (s : Text) → NoDouble q s → collapse q s ≡ s
unfolding collapse
collapse_id q [] n = refl
collapse_id q (c ∷ s) n = ground (arith, collapse_id (c == b'"') s n.1)

-- The first repair leaves no two quotes side by side, and a text without such as it was; so a second
-- run changes nothing.
pub sanitize_lem :
    (s : Text)
    → NoDouble false (sanitize s)
      × (NoDouble false s → sanitize s ≡ s)
      × (sanitize (sanitize s) ≡ sanitize s)
unfolding sanitize
sanitize_lem s = (
  collapse-NoDouble false s,
  collapse_id false s,
  collapse_id false (collapse false s) (collapse-NoDouble false s),
)

-- A byte of a plain value: no quote, backslash or comma.
abbrev pub IsPlain : ℕ → Type 0
IsPlain c = (c ≢ b'"') × (c ≢ 92) × (c ≢ b',')

abbrev pub IsBlank : ℕ → Type 0
IsBlank c = c ≡ b' '

blanks_then-lem :
    (c : ℕ) (bs s : Text) → All IsBlank bs → c ≢ b' ' → blanks_then c (bs ++ c ∷ s) ≡ true
unfolding blanks_then
blanks_then-lem c [] s h n = ground arith
blanks_then-lem c (b ∷ bs) s h n = ground (arith, blanks_then-lem c bs s h.1 n)

-- A key: no quote in it.
abbrev pub IsKey : Text → Type 0
IsKey = All (λ c. c ≢ b'"')

after_quote_colon-key :
    (k bs rest : Text)
    → IsKey k
    → All IsBlank bs
    → after_quote_colon (k ++ b'"' ∷ (bs ++ b':' ∷ rest)) ≡ true
unfolding after_quote_colon
after_quote_colon-key [] bs rest h n = blanks_then-lem b':' bs rest n (λ e. ground arith)
after_quote_colon-key (c ∷ k) bs rest h n = ground (arith, after_quote_colon-key k bs rest h.1 n)

next_key-key :
    (as' k bs rest : Text)
    → All IsBlank as'
    → IsKey k
    → All IsBlank bs
    → next_key (as' ++ b'"' ∷ (k ++ b'"' ∷ (bs ++ b':' ∷ rest))) ≡ true
unfolding next_key
next_key-key [] k bs rest ha hk hb = after_quote_colon-key k bs rest hk hb
next_key-key (a ∷ as') k bs rest ha hk hb = ground (arith, next_key-key as' k bs rest ha.1 hk hb)

fix_gap :
    (bs s : Text)
    → All IsBlank bs
    → fix_quotes gap (bs ++ b'"' ∷ s) ≡ bs ++ b'"' ∷ fix_quotes value s
unfolding fix_quotes
fix_gap [] s h = refl
fix_gap (b ∷ bs) s h = ground (arith, fix_gap bs s h.1)

fix_value_closed :
    (v s : Text) → All IsPlain v → fix_quotes value (v ++ b'"' ∷ s) ≡ v ++ b'"' ∷ fix_quotes seek s
unfolding fix_quotes
fix_value_closed [] s h = refl
fix_value_closed (c ∷ v) s h = ground (arith, fix_value_closed v s h.1)

fix_value_open :
    (v s : Text)
    → All IsPlain v
    → next_key s ≡ true
    → fix_quotes value (v ++ b',' ∷ s) ≡ v ++ b'"' ∷ b',' ∷ fix_quotes seek s
unfolding fix_quotes
fix_value_open [] s h n = ground arith
fix_value_open (c ∷ v) s h n = ground (arith, fix_value_open v s h.1 n)

fix_colon :
    (bs s : Text)
    → All IsBlank bs
    → fix_quotes seek (b':' ∷ (bs ++ b'"' ∷ s)) ≡ b':' ∷ (bs ++ b'"' ∷ fix_quotes value s)
unfolding fix_quotes
fix_colon bs s h =
    rw (blanks_then-lem b'"' bs s h (λ e. ground arith)) (ap (◌∷◌ b':') (fix_gap bs s h))

-- The damage that TradingView does to a custom field is undone: a plain text value whose closing
-- quote is missing before the next key gets it back, where a value that is closed stays as it is.
pub fix_quotes_lem :
    (bs v cs k ds rest tail : Text)
    → All IsBlank bs
    → All IsBlank cs
    → All IsBlank ds
    → All IsPlain v
    → IsKey k
    → let next = cs ++ b'"' ∷ (k ++ b'"' ∷ (ds ++ b':' ∷ rest)) in
      (fix_quotes seek (b':' ∷ (bs ++ b'"' ∷ (v ++ b',' ∷ next)))
        ≡ b':' ∷ (bs ++ b'"' ∷ (v ++ b'"' ∷ b',' ∷ fix_quotes seek next)))
      × (fix_quotes seek (b':' ∷ (bs ++ b'"' ∷ (v ++ b'"' ∷ tail)))
          ≡ b':' ∷ (bs ++ b'"' ∷ (v ++ b'"' ∷ fix_quotes seek tail)))
fix_quotes_lem bs v cs k ds rest tail hb hc hd hv hk = (
  fix_colon bs _ hb
      ∙ ap (λ t. b':' ∷ (bs ++ b'"' ∷ t))
          (fix_value_open v _ hv (next_key-key cs k ds rest hc hk hd)),
  fix_colon bs _ hb ∙ ap (λ t. b':' ∷ (bs ++ b'"' ∷ t)) (fix_value_closed v tail hv),
)

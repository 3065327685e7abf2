-- ===== src/Risk/Scorer/Rescore.antt =====
-- What a rescoring gives each symbol.
use tv_webhook_trader.Shared.{
  ◌≡◌, refl, sym, ap, ◌∙◌, true, false, List, [], ◌∷◌, ◌++◌, Option, none, some, Text, text_eq,
  text_eq_iff, is_empty, map, lookup, insert, lookup-insert, get_or, group, has_text, select, arith,
  Bool-cases, inl, inr, ℕ,
}
use mathlib.Core.Option
use mathlib.Core.List.{append_assoc, append-nil}
use tv_webhook_trader.Shared.Double.{Double}
use tv_webhook_trader.Execution.Trades.{TradeRecord}
use tv_webhook_trader.Risk.Scorer.{SymbolScorer, get_score}
use tv_webhook_trader.Risk.Scorer.Scoring.{rescore_all, score_symbol, push_back, has_name}

-- None for a list without elements.
abbrev pub if_any {ℓ} : {A : Type ℓ} → List A → Option (List A)
if_any [] = none
if_any (x ∷ xs) = some (x ∷ xs)

pub lookup-map :
    {V W : Type 0} (f : Text → V → W) (k : Text) (m : List (Text × V))
    → lookup k (map (λ g. (g.0, f g.0 g.1)) m) ≡ Option.map (f k) (lookup k m)
unfolding lookup
lookup-map f k [] = refl
lookup-map f k ((j, v) ∷ m) = elim (Bool-cases (text_eq j k)) [
  | inl own ↦ let e : j ≡ k = (text_eq_iff j k).0 own in rw (own, e) refl
  | inr other ↦ rw other (lookup-map f k m)
]

module _ {F : Type 0} where
  if_any-push_back :
      (t : TradeRecord F) (l : List (TradeRecord F)) → if_any (push_back t l) ≡ some (push_back t l)
  if_any-push_back t [] = refl
  if_any-push_back t (x ∷ l) = refl

  get_or-if_any : (l : List (TradeRecord F)) → get_or [] (if_any l) ≡ l
  get_or-if_any [] = refl
  get_or-if_any (x ∷ l) = refl

  -- A list of the elements for each text that any of them has.
  pub lookup-group :
      (key : TradeRecord F → Text) (k : Text) (m : List (Text × List (TradeRecord F)))
      (l ts : List (TradeRecord F))
      → lookup k m ≡ if_any l
      → lookup k (group key push_back [] m ts) ≡ if_any (l ++ select (has_text key k) ts)
  unfolding group select
  lookup-group key k m l [] e = rw (e, append-nil) refl
  lookup-group key k m l (t ∷ ts) e =
      let new = λ (j : Text). push_back t (get_or [] (lookup j m)) in
      elim (Bool-cases (has_text key k t)) [
        | inl own ↦
            let same : key t ≡ k = (text_eq_iff (key t) k).0 own in
            let held : get_or [] (lookup (key t) m) ≡ l =
              ap (λ j. get_or [] (lookup j m)) same ∙ (ap (get_or []) e ∙ get_or-if_any l) in
            rw own (
              lookup-group key k (insert (key t) (new (key t)) m) (push_back t l) ts (
                rw (lookup-insert (key t) k (new (key t)) m, own, held)
                  (sym (if_any-push_back t l)))
              ∙ ap if_any (append_assoc l (t ∷ []) (select (has_text key k) ts)))
        | inr other ↦ rw other (
            lookup-group key k (insert (key t) (new (key t)) m) l ts
              (rw (lookup-insert (key t) k (new (key t)) m, other) e))
      ]

  -- A symbol's own trades have a name, where the symbol has one.
  select-has_name :
      (k : Text) (ts : List (TradeRecord F))
      → is_empty k ≡ false
      → select (has_text (λ t. t.symbol) k) (select has_name ts)
        ≡ select (has_text (λ t. t.symbol) k) ts
  unfolding select
  select-has_name k [] h = refl
  select-has_name k (t ∷ ts) h =
      ground (arith, text_eq_iff t.symbol k, select-has_name k ts h, ap is_empty)

module _ {F : Type 0} ⦃d : Double F⦄ where
  -- A rescoring gives each symbol that has a name the score of its own trades among the given ones, in
  -- order, and no score to a symbol without trades, whatever was there before.
  pub rescore_all-get_score :
      (now : ℕ) (time : Text) (ts : List (TradeRecord F)) (s : SymbolScorer F) (symbol : Text)
      → s.config.enabled ≡ true
      → is_empty symbol ≡ false
      → get_score symbol (rescore_all now time ts s)
        ≡ Option.map
            (λ own. score_symbol s.config time symbol own 0)
            (if_any (select (has_text (λ t. t.symbol) symbol) ts))
  unfolding rescore_all get_score lookup
  rescore_all-get_score now time ts s symbol on h =
      let named = select has_name ts in
      let by_symbol = group (λ (t : TradeRecord F). t.symbol) push_back [] [] named in
      simp on (
        lookup-map (λ k own. score_symbol s.config time k own 0) symbol by_symbol
        ∙ ap (Option.map (λ own. score_symbol s.config time symbol own 0)) (
            lookup-group (λ t. t.symbol) symbol [] [] named refl
            ∙ ap if_any (select-has_name symbol ts h)))

-- ===== src/Risk/Scorer/Realized.antt =====
-- Which entry realized figures go into.
use tv_webhook_trader.Shared.{
  ◌≡◌, refl, if◌then◌else◌, List, Text, text_eq, text_eq_iff, text_eq_refl, lookup, lookup-insert,
  Bool-cases, Option-cases, inl, inr,
}
use mathlib.Core.Option
use tv_webhook_trader.Shared.Double.{Double}
use tv_webhook_trader.Risk.Score.{SymbolScore}
use tv_webhook_trader.Risk.Scorer.{RealizedAccumulator}
use tv_webhook_trader.Risk.Scorer.Recording.{with_realized, put_realized}

module _ {F : Type 0} ⦃d : Double F⦄ where
  -- Realized figures go into an entry that is there, and leave the others alone.
  pub lookup-put_realized :
      (key k : Text) (acc : RealizedAccumulator F) (m : List (Text × SymbolScore F))
      → lookup k (put_realized key acc (lookup key m) m)
        ≡ (if text_eq key k then Option.map (with_realized acc) (lookup k m) else lookup k m)
  unfolding put_realized
  lookup-put_realized key k acc m = elim (Bool-cases (text_eq key k)) [
    | inl same ↦
        let e : key ≡ k = (text_eq_iff key k).0 same in
        elim (Option-cases (lookup k m)) [
          | inl missing ↦ rw (same, e, missing) missing
          | inr (x, found) ↦
              rw (same, e, found, lookup-insert k k (with_realized acc x) m, text_eq_refl k) refl
        ]
    | inr other ↦ elim (Option-cases (lookup key m)) [
      | inl missing ↦ rw (missing, other) refl
      | inr (x, found) ↦ rw (found, lookup-insert key k (with_realized acc x) m, other) refl
    ]
  ]

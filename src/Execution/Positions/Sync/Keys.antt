-- ===== src/Execution/Positions/Sync/Keys.antt =====
-- The keys of the positions through sync_positions_with_exchange: which it gives out, and that none
-- stands twice.
use tv_webhook_trader.Shared.{
  ℕ, ◌+◌, ◌-◌, ◌≡◌, refl, ◌∙◌, inl, inr, true, false, if◌then◌else◌, List, [], ◌∷◌, ◌++◌, Option,
  none, some, Text, codes, text_eq, text_eq_iff, text_eq_refl, contains, drop, length,
  length-append, lookup, has_key, insert, HasUniqueKeys, lookup-erase, insert-HasUniqueKeys,
  erase-HasUniqueKeys, arith, subst, Bool-cases, ◌<◌,
}
use mathlib.Core.List.{append_assoc}
use mathlib.Core.Option
use tv_webhook_trader.Risk.Position.{ManagedPosition, Positions}
use tv_webhook_trader.Execution.Positions.Exchange.{ExchangePos, side_name}
use tv_webhook_trader.Execution.Positions.Sync.{
  Sweep, ext_key, is_ext, marked, mark_real, other_side, remove_later, turned, turn, visit,
  visit_at, keys_of, sweep, erase_all,
}

drop-length : (s t : Text) → drop (length s) (s ++ t) ≡ t
drop-length [] t = refl
drop-length (c ∷ s) t = drop-length s t

append-is_ext : (s : Text) → 0 < length s → is_ext (s ++ codes "_ext") ≡ true
unfolding is_ext
append-is_ext s h =
    let long : length (s ++ codes "_ext") ≡ length s + 4 = length-append s (codes "_ext") in
    let cut : length (s ++ codes "_ext") - 4 ≡ length s = omega (arith, long) in
    rw (cut, drop-length s (codes "_ext")) (ground (arith, long, text_eq_refl (codes "_ext")))

pub ext_key-is_ext : (symbol side : Text) → is_ext (ext_key symbol side) ≡ true
ext_key-is_ext symbol side =
    let head = symbol ++ b'_' ∷ side in
    subst (λ t. is_ext t ≡ true) (append_assoc symbol (b'_' ∷ side) (codes "_ext"))
      (append-is_ext head (omega (arith, length-append symbol (b'_' ∷ side))))

-- A key of the exchange is not one that is none of its keys.
pub ext-apart : (j k : Text) → is_ext j ≡ true → is_ext k ≡ false → text_eq j k ≡ false
ext-apart j k h n = elim (Bool-cases (text_eq j k)) [
  | inl same ↦
      let e : j ≡ k = (text_eq_iff j k).0 same in let h' : is_ext k ≡ true = rw e at h in cc
  | inr apart ↦ apart
]

module _ {F : Type 0} where
  erase_all-HasUniqueKeys :
      (keys : List Text) (ps : Positions F) → HasUniqueKeys ps → HasUniqueKeys (erase_all keys ps)
  unfolding erase_all
  erase_all-HasUniqueKeys [] ps u = u
  erase_all-HasUniqueKeys (j ∷ keys) ps u =
      erase-HasUniqueKeys j (erase_all keys ps) (erase_all-HasUniqueKeys keys ps u)

  pub lookup-erase_all :
      (k : Text) (keys : List Text) (ps : Positions F)
      → HasUniqueKeys ps
      → lookup k (erase_all keys ps) ≡ (if contains keys k then none else lookup k ps)
  unfolding erase_all contains
  lookup-erase_all k [] ps u = refl
  lookup-erase_all k (j ∷ keys) ps u = ground (
    arith,
    lookup-erase j k (erase_all keys ps) (erase_all-HasUniqueKeys keys ps u),
    lookup-erase_all k keys ps u,
  )

  pub contains-keys_of : (k : Text) (ps : Positions F) → contains (keys_of ps) k ≡ has_key k ps
  unfolding contains has_key
  contains-keys_of k [] = refl
  contains-keys_of k ((j, p) ∷ ps) = ground (arith, contains-keys_of k ps)

  module _ (ex : List (Text × ExchangePos F)) where
    pub lookup-mark_real :
        (k : Text) (ps : Positions F)
        → lookup k (mark_real ex ps) ≡ Option.map (marked ex) (lookup k ps)
    unfolding lookup mark_real
    lookup-mark_real k [] = refl
    lookup-mark_real k ((j, p) ∷ ps) = elim (Bool-cases (text_eq j k)) [
      | inl e ↦ rw e refl
      | inr e ↦ rw e (lookup-mark_real k ps)
    ]

    pub has_key-mark_real :
        (k : Text) (ps : Positions F) → has_key k (mark_real ex ps) ≡ has_key k ps
    unfolding has_key mark_real
    has_key-mark_real k [] = refl
    has_key-mark_real k ((j, p) ∷ ps) = ground (arith, has_key-mark_real k ps)

    pub mark_real-HasUniqueKeys :
        (ps : Positions F) → HasUniqueKeys ps → HasUniqueKeys (mark_real ex ps)
    unfolding mark_real
    mark_real-HasUniqueKeys [] u = tt
    mark_real-HasUniqueKeys ((j, p) ∷ ps) u =
        (has_key-mark_real j ps ∙ u.0, mark_real-HasUniqueKeys ps u.1)

  module _ (now : ℕ) (ex : List (Text × ExchangePos F)) where
    turn-HasUniqueKeys :
        (j : Text) (p : ManagedPosition F) (o : Option (ExchangePos F)) (w : Sweep F)
        → HasUniqueKeys w.positions
        → HasUniqueKeys (turn j p o w).positions
    unfolding turn remove_later
    turn-HasUniqueKeys j p none w u = u
    turn-HasUniqueKeys j p (some ep) w u =
        let here = insert-HasUniqueKeys j (turned ep p) w.positions u in
        ground (
          arith,
          here,
          insert-HasUniqueKeys (ext_key ep.symbol ep.hold_side) (turned ep p)
              (insert j (turned ep p) w.positions) here,
        )

    visit_at-HasUniqueKeys :
        (j : Text) (o : Option (ManagedPosition F)) (w : Sweep F)
        → HasUniqueKeys w.positions
        → HasUniqueKeys (visit_at now ex j o w).positions
    unfolding visit_at visit remove_later
    visit_at-HasUniqueKeys j none w u = u
    visit_at-HasUniqueKeys j (some p) w u =
        let other = lookup (side_name p.symbol (other_side p.side)) ex in
        ground (arith, turn-HasUniqueKeys j p other w u)

    pub sweep-HasUniqueKeys :
        (keys : List Text) (w : Sweep F)
        → HasUniqueKeys w.positions
        → HasUniqueKeys (sweep now ex keys w).positions
    unfolding sweep
    sweep-HasUniqueKeys [] w u = u
    sweep-HasUniqueKeys (j ∷ keys) w u =
        sweep-HasUniqueKeys keys _ (visit_at-HasUniqueKeys j (lookup j w.positions) w u)

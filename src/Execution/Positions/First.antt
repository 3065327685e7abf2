-- ===== src/Execution/Positions/First.antt =====
-- The position that a signal or a report of the exchange finds.
use tv_webhook_trader.Shared.{
  ◌≡◌, refl, ap, ◌⊎◌, inl, inr, true, false, List, [], ◌∷◌, ◌++◌, some, Text, text_eq, text_eq_iff,
  text_eq_refl, lookup, erase, has_key, HasUniqueKeys, All, arith, Bool-cases,
}
use tv_webhook_trader.Shared.Double.{Double}
use tv_webhook_trader.Risk.Position.{ManagedPosition, Positions}
use tv_webhook_trader.Execution.Positions.{is_match, find_by_symbol_side}

module _ {V : Type 0} where
  unlike :
      (j k : Text) (v : V) (xs ys : List (Text × V))
      → has_key j (xs ++ (k, v) ∷ ys) ≡ false
      → text_eq j k ≡ false
  unfolding has_key
  unlike j k v [] ys h = ground (arith, text_eq_iff j k, text_eq_iff k j)
  unlike j k v ((i, w) ∷ xs) ys h = unlike j k v xs ys (ground arith)

  pub lookup-middle :
      (k : Text) (v : V) (xs ys : List (Text × V))
      → HasUniqueKeys (xs ++ (k, v) ∷ ys)
      → (lookup k (xs ++ (k, v) ∷ ys) ≡ some v) × (erase k (xs ++ (k, v) ∷ ys) ≡ xs ++ ys)
  unfolding lookup erase
  lookup-middle k v [] ys u = rw (text_eq_refl k) (refl, refl)
  lookup-middle k v ((j, w) ∷ xs) ys u =
      let rest = lookup-middle k v xs ys u.1 in
      rw (unlike j k v xs ys u.0) (rest.0, ap (λ m. (j, w) ∷ m) rest.1)

module _ {F : Type 0} where
  -- No position of the symbol and the side.
  abbrev pub NoneHeld : Text → Text → Positions F → Type 0
  NoneHeld s b ps = All (λ kp. is_match s b kp.1 ≡ false) ps

  -- The first position of the symbol and the side, where it stands and what stands around it.
  pub record FirstOf (s b : Text) (ps : Positions F) : Type 0 where
    pub before : Positions F
    pub key : Text
    pub position : ManagedPosition F
    pub behind : Positions F
    pub stands : ps ≡ before ++ (key, position) ∷ behind
    pub matches : is_match s b position ≡ true
    pub earlier : NoneHeld s b before

module _ {F : Type 0} ⦃d : Double F⦄ where
  pub find_by_symbol_side-FirstOf :
      (s b : Text) (ps : Positions F)
      → (NoneHeld s b ps × ((find_by_symbol_side s b ps).key ≡ []))
        ⊎ ((f : FirstOf s b ps) × ((find_by_symbol_side s b ps).key ≡ f.key))
  unfolding find_by_symbol_side
  find_by_symbol_side-FirstOf s b [] = inl (tt, refl)
  find_by_symbol_side-FirstOf s b ((k, p) ∷ ps) = elim (Bool-cases (is_match s b p)) [
    | inl own ↦ rw own (
        inr (
          record {
            before = [];
            key = k;
            position = p;
            behind = ps;
            stands = refl;
            matches = own;
            earlier = tt;
          },
          refl,
        ))
    | inr other ↦ rw other (elim (find_by_symbol_side-FirstOf s b ps) [
      | inl (none, e) ↦ inl ((refl, none), e)
      | inr (f, e) ↦ inr (
        record {
          before = (k, p) ∷ f.before;
          key = f.key;
          position = f.position;
          behind = f.behind;
          stands = ap (λ m. (k, p) ∷ m) f.stands;
          matches = f.matches;
          earlier = (other, f.earlier);
        },
        e,
      )
    ])
  ]

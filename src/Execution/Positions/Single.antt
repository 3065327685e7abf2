-- ===== src/Execution/Positions/Single.antt =====
-- include/execution/position_manager.hpp: one position at most for each symbol.
use tv_webhook_trader.Shared.{
  ℕ, ◌≡◌, refl, sym, inl, inr, Bool, true, false, ◌||◌, if◌then◌else◌, [], ◌∷◌, some, Text, codes,
  text_eq, text_eq_comm, lookup, insert, erase, erase-absent, lookup-has_key, arith, Bool-cases,
  Option-cases,
}
use tv_webhook_trader.Shared.Double.{Double, nought}
use tv_webhook_trader.Risk.Position.{ManagedPosition, Positions}
use tv_webhook_trader.Execution.Positions.{
  NewPosition, position_key, new_position, register_position, remove, reduce_quantity,
  find_and_prepare_ws_close,
}

module _ {F : Type 0} where
  -- A position of the symbol, on any side.
  unfoldable pub holds : Text → Positions F → Bool
  holds symbol [] = false
  holds symbol ((_, p) ∷ ps) = text_eq p.symbol symbol || holds symbol ps

  abbrev pub is_sided : ManagedPosition F → Bool
  is_sided p = text_eq p.side (codes "long") || text_eq p.side (codes "short")

  -- No symbol is held twice, on one side or on both, and every position is long or short.
  abbrev pub IsSingle : Positions F → Type 0
  IsSingle [] = Unit
  IsSingle ((_, p) ∷ ps) = (is_sided p ≡ true) × (holds p.symbol ps ≡ false) × IsSingle ps

  holds-insert :
      (symbol k : Text) (p : ManagedPosition F) (ps : Positions F)
      → holds symbol ps ≡ false
      → text_eq p.symbol symbol ≡ false
      → holds symbol (insert k p ps) ≡ false
  unfolding holds insert
  holds-insert symbol k p [] h e = ground arith
  holds-insert symbol k p ((j, q) ∷ ps) h e = ground (arith, holds-insert symbol k p ps)

  insert-IsSingle :
      (k : Text) (p : ManagedPosition F) (ps : Positions F)
      → is_sided p ≡ true
      → holds p.symbol ps ≡ false
      → IsSingle ps
      → IsSingle (insert k p ps)
  unfolding holds insert
  insert-IsSingle k p [] sided free v = (sided, refl, tt)
  insert-IsSingle k p ((j, q) ∷ ps) sided free v = elim (Bool-cases (text_eq j k)) [
    | inl same ↦ rw same (sided, ground arith, v.2)
    | inr other ↦ rw other (
      v.0,
      holds-insert q.symbol k p ps v.1 (ground (arith, text_eq_comm p.symbol q.symbol)),
      insert-IsSingle k p ps sided (ground arith) v.2,
    )
  ]

  holds-replace :
      (symbol k : Text) (p q : ManagedPosition F) (ps : Positions F)
      → lookup k ps ≡ some p
      → q.symbol ≡ p.symbol
      → holds symbol (insert k q ps) ≡ holds symbol ps
  unfolding holds insert lookup
  holds-replace symbol k p q [] h e = cc
  holds-replace symbol k p q ((j, w) ∷ ps) h e = ground (arith, holds-replace symbol k p q ps)

  -- A position with another quantity in the place of the old one.
  replace-IsSingle :
      (k : Text) (p q : ManagedPosition F) (ps : Positions F)
      → lookup k ps ≡ some p
      → q.symbol ≡ p.symbol
      → q.side ≡ p.side
      → IsSingle ps
      → IsSingle (insert k q ps)
  unfolding insert lookup
  replace-IsSingle k p q [] h e b v = cc
  replace-IsSingle k p q ((j, w) ∷ ps) h e b v =
      ground (arith, holds-replace w.symbol k p q ps, replace-IsSingle k p q ps)

  holds-erase :
      (symbol k : Text) (ps : Positions F)
      → holds symbol ps ≡ false
      → holds symbol (erase k ps) ≡ false
  unfolding holds erase
  holds-erase symbol k [] h = refl
  holds-erase symbol k ((j, w) ∷ ps) h = ground (arith, holds-erase symbol k ps)

  erase-IsSingle : (k : Text) (ps : Positions F) → IsSingle ps → IsSingle (erase k ps)
  unfolding erase
  erase-IsSingle k [] v = tt
  erase-IsSingle k ((j, w) ∷ ps) v =
      ground (arith, holds-erase w.symbol k ps, erase-IsSingle k ps v.2)

  remove_lem : (k : Text) (ps : Positions F) → (remove k ps).1 ≡ erase k ps
  unfolding remove
  remove_lem k ps = elim (Option-cases (lookup k ps)) [
    | inl gone ↦ rw (gone, remove) (sym (erase-absent k ps ((lookup-has_key k ps).0 gone)))
    | inr (p, found) ↦ rw (found, remove) refl
  ]

  pub remove-IsSingle : (k : Text) (ps : Positions F) → IsSingle ps → IsSingle (remove k ps).1
  remove-IsSingle k ps v = rw (remove_lem k ps) (erase-IsSingle k ps v)

  holds-ws_close :
      (symbol s side : Text) (ps : Positions F)
      → holds symbol ps ≡ false
      → holds symbol (find_and_prepare_ws_close s side ps).1 ≡ false
  unfolding holds find_and_prepare_ws_close
  holds-ws_close symbol s side [] h = refl
  holds-ws_close symbol s side ((j, w) ∷ ps) h = ground (arith, holds-ws_close symbol s side ps)

  pub ws_close-IsSingle :
      (s side : Text) (ps : Positions F)
      → IsSingle ps
      → IsSingle (find_and_prepare_ws_close s side ps).1
  unfolding find_and_prepare_ws_close
  ws_close-IsSingle s side [] v = tt
  ws_close-IsSingle s side ((j, w) ∷ ps) v =
      ground (arith, holds-ws_close w.symbol s side ps, ws_close-IsSingle s side ps v.2)

module _ {F : Type 0} ⦃d : Double F⦄ where
  reduced : F → ManagedPosition F → ManagedPosition F
  reduced amount p = record p { quantity = d.sub p.quantity amount }

  reduce_quantity_found :
      (k : Text) (amount : F) (p : ManagedPosition F) (ps : Positions F)
      → lookup k ps ≡ some p
      → reduce_quantity k amount ps ≡ (
          if d.le (d.sub p.quantity amount) nought
          then erase k ps
          else insert k (reduced amount p) ps)
  unfolding reduced reduce_quantity
  reduce_quantity_found k amount p ps found = rw (found, reduce_quantity) refl

  pub reduce_quantity-IsSingle :
      (k : Text) (amount : F) (p : ManagedPosition F) (ps : Positions F)
      → lookup k ps ≡ some p
      → IsSingle ps
      → IsSingle (reduce_quantity k amount ps)
  unfolding reduced
  reduce_quantity-IsSingle k amount p ps found v =
      rw (reduce_quantity_found k amount p ps found)
        (elim (Bool-cases (d.le (d.sub p.quantity amount) nought)) [
          | inl nothing ↦ rw nothing (erase-IsSingle k ps v)
          | inr left ↦ rw left (replace-IsSingle k p (reduced amount p) ps found refl refl v)
        ])

  -- A new position of a symbol that is not held.
  pub register_position-IsSingle :
      (now : ℕ) (symbol tf : Text) (new : NewPosition F) (oid : ℕ) (ps : Positions F)
      → (text_eq new.side (codes "long") || text_eq new.side (codes "short")) ≡ true
      → holds symbol ps ≡ false
      → IsSingle ps
      → IsSingle (register_position now symbol tf new oid ps)
  unfolding register_position
  register_position-IsSingle now symbol tf new oid ps sided free v =
      insert-IsSingle (position_key symbol tf oid) (new_position now symbol tf new) ps sided free v

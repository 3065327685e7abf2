-- ===== src/Execution/Positions/Lookup.antt =====
-- The positions that are found, closed and reduced.
use tv_webhook_trader.Shared.{
  ◌≡◌, refl, ap, true, false, if◌then◌else◌, [], ◌∷◌, Option, none, some, Text, text_eq,
  text_eq_iff, text_eq_refl, lookup, insert, erase, Fresh, HasUniqueKeys, lookup-insert,
  lookup-erase, lookup-none, insert-HasUniqueKeys, erase-HasUniqueKeys, arith, All, Bool-cases,
  Option-cases, inl, inr,
}
use tv_webhook_trader.Shared.Double.{Double, nought}
use tv_webhook_trader.Risk.Position.{ManagedPosition, Positions}
use tv_webhook_trader.Execution.Positions.{
  is_match, remove, get, find_and_prepare_ws_close, find_by_symbol_side, reduce_quantity,
  WsCloseResult,
}

module _ {F : Type 0} ⦃d : Double F⦄ where
  -- What closing by symbol and side may leave: nothing matched, and the search finds nothing; or
  -- the position that the search finds, taken out of the map as its key would be.
  abbrev pub IsClosed : Text → Text → Positions F → WsCloseResult F × Positions F → Type 0
  IsClosed symbol side ps (none, rest) =
      (rest ≡ ps)
      × All (λ kp. is_match symbol side kp.1 ≡ false) ps
      × (find_by_symbol_side symbol side ps ≡ record { key = []; quantity = nought })
  IsClosed symbol side ps (some (k, p), rest) =
      (is_match symbol side p ≡ true)
      × (remove k ps ≡ (some p, rest))
      × (find_by_symbol_side symbol side ps ≡ record { key = k; quantity = p.quantity })

  remove-here :
      (k : Text) (p : ManagedPosition F) (ps : Positions F) → remove k ((k, p) ∷ ps) ≡ (some p, ps)
  unfolding remove lookup erase
  remove-here k p ps = ground (arith, text_eq_refl k)

  search-here :
      (symbol side k : Text) (p : ManagedPosition F) (ps : Positions F)
      → is_match symbol side p ≡ true
      → find_by_symbol_side symbol side ((k, p) ∷ ps) ≡ record { key = k; quantity = p.quantity }
  unfolding find_by_symbol_side
  search-here symbol side k p ps hit = ground arith

  remove-skip :
      (k j : Text) (p q : ManagedPosition F) (ps rest : Positions F)
      → Fresh j ps
      → remove k ps ≡ (some p, rest)
      → remove k ((j, q) ∷ ps) ≡ (some p, (j, q) ∷ rest)
  unfolding remove lookup erase
  remove-skip k j p q ps rest fresh h = ground (arith, text_eq_iff j k, lookup-none j ps fresh)

  ws_close-skip :
      (symbol side j : Text) (q : ManagedPosition F) (ps : Positions F)
      (r : WsCloseResult F × Positions F)
      → Fresh j ps
      → is_match symbol side q ≡ false
      → IsClosed symbol side ps r
      → IsClosed symbol side ((j, q) ∷ ps) (r.0, (j, q) ∷ r.1)
  unfolding remove lookup erase find_by_symbol_side
  ws_close-skip symbol side j q ps (none, rest) fresh other h =
      (ap (λ m. (j, q) ∷ m) h.0, (other, h.1), rw other h.2)
  ws_close-skip symbol side j q ps (some (k, p), rest) fresh other h =
      (h.0, remove-skip k j p q ps rest fresh h.1, rw other h.2)

  -- Closing by symbol and side takes the position that the search by symbol and side finds out of
  -- the map, as `remove` does for its key; without a match the map stays as it is.
  pub find_and_prepare_ws_close_lem :
      (symbol side : Text) (ps : Positions F)
      → HasUniqueKeys ps
      → IsClosed symbol side ps (find_and_prepare_ws_close symbol side ps)
  unfolding find_and_prepare_ws_close find_by_symbol_side remove lookup erase
  find_and_prepare_ws_close_lem symbol side [] u = (refl, tt, refl)
  find_and_prepare_ws_close_lem symbol side ((k, p) ∷ ps) u =
      elim (Bool-cases (is_match symbol side p)) [
        | inl hit ↦ rw hit (hit, remove-here k p ps, search-here symbol side k p ps hit)
        | inr miss ↦ rw miss (
            ws_close-skip symbol side k p ps (find_and_prepare_ws_close symbol side ps) u.0 miss
              (find_and_prepare_ws_close_lem symbol side ps u.1))
      ]

  -- What reducing one position leaves of it.
  abbrev pub reduced : F → Option (ManagedPosition F) → Option (ManagedPosition F)
  reduced amount none = none
  reduced amount (some p) =
      let left = d.sub p.quantity amount in
      if d.le left nought then none else some (record p { quantity = left })

  -- Reducing the quantity of a position touches that position alone: it holds what is left of the
  -- quantity, or is gone when nothing is left.
  pub reduce_quantity_lem :
      (key : Text) (amount : F) (ps : Positions F)
      → HasUniqueKeys ps
      → (j : Text)
      → get j (reduce_quantity key amount ps)
        ≡ (if text_eq key j then reduced amount (get key ps) else get j ps)
  unfolding get reduce_quantity
  reduce_quantity_lem key amount ps unique j = elim (Option-cases (lookup key ps)) [
    | inl e ↦ ground (arith, text_eq_iff key j)
    | inr (p, e) ↦ ground (
      arith,
      text_eq_iff key j,
      lookup-erase key j ps unique,
      lookup-insert key j (record p { quantity = d.sub p.quantity amount }) ps,
    )
  ]

  abbrev pub IsOpen : ManagedPosition F → Type 0
  IsOpen p = d.le p.quantity nought ≡ false

  abbrev pub AllOpen : Positions F → Type 0
  AllOpen ps = All (λ kp. IsOpen kp.1) ps

  erase-AllOpen : (k : Text) (ps : Positions F) → AllOpen ps → AllOpen (erase k ps)
  unfolding erase
  erase-AllOpen k [] h = tt
  erase-AllOpen k ((j, p) ∷ ps) h = ground (arith, erase-AllOpen k ps h.1)

  insert-AllOpen :
      (k : Text) (p : ManagedPosition F) (ps : Positions F)
      → IsOpen p
      → AllOpen ps
      → AllOpen (insert k p ps)
  unfolding insert
  insert-AllOpen k p [] hp h = (hp, tt)
  insert-AllOpen k p ((j, q) ∷ ps) hp h = ground (arith, insert-AllOpen k p ps hp h.1)

  -- If no key stands twice and no position is without a quantity, reducing one keeps it so.
  pub reduce_quantity-AllOpen :
      (key : Text) (amount : F) (ps : Positions F)
      → HasUniqueKeys ps
      → AllOpen ps
      → HasUniqueKeys (reduce_quantity key amount ps) × AllOpen (reduce_quantity key amount ps)
  unfolding reduce_quantity
  reduce_quantity-AllOpen key amount ps unique h = elim (Option-cases (lookup key ps)) [
    | inl e ↦ let same : reduce_quantity key amount ps ≡ ps = ground arith in rw same (unique, h)
    | inr (p, e) ↦
        let left = record p { quantity = d.sub p.quantity amount } in
        elim (Bool-cases (d.le (d.sub p.quantity amount) nought)) [
          | inl gone ↦
              let erased : reduce_quantity key amount ps ≡ erase key ps = ground arith in
              rw erased (erase-HasUniqueKeys key ps unique, erase-AllOpen key ps h)
          | inr some_left ↦
              let kept : reduce_quantity key amount ps ≡ insert key left ps = ground arith in
              rw kept
                (insert-HasUniqueKeys key left ps unique, insert-AllOpen key left ps some_left h)
        ]
  ]

-- ===== src/Execution/Positions/Keys.antt =====
-- The keys of the positions: the order's number can be read back from a key, so a new order never
-- takes the place of another position.
use tv_webhook_trader.Shared.{
  ℕ, ◌+◌, ◌≡◌, ◌≢◌, refl, ap, ◌∙◌, if◌then◌else◌, [], ◌∷◌, ◌++◌, some, Text, text_eq, text_eq_iff,
  text_eq_refl, length, lookup, insert, has_key, Fresh, HasUniqueKeys, lookup-insert, lookup-none,
  length-insert, insert-HasUniqueKeys, arith, ◌==◌, All, Bool-cases, inl, inr,
}
use tv_webhook_trader.Shared.Decimal.{
  read_digits, show_nat, show_nat-AreDigits, read-show_nat, AreDigits,
}
use tv_webhook_trader.Risk.Position.{ManagedPosition, Positions}
use tv_webhook_trader.Execution.Positions.{
  NewPosition, new_position, position_key, register_position, get,
}

-- What stands behind the last '_' of a text, or `found` if there is none.
behind_last : Text → Text → Text
behind_last found [] = found
behind_last found (c ∷ s) =
    let new = behind_last s s in if c == b'_' then new else behind_last found s

-- The number at the end of a key.
pub key_oid : Text → ℕ
unfolding behind_last
key_oid k = read_digits 0 (behind_last [] k)

behind-digits : (found s : Text) → AreDigits s → behind_last found s ≡ found
unfolding behind_last
behind-digits found [] h = refl
behind-digits found (c ∷ s) h = ground (arith, behind-digits found s h.2)

behind-append : (found s t : Text) → AreDigits t → behind_last found (s ++ b'_' ∷ t) ≡ t
unfolding behind_last
behind-append found [] t h = behind-digits t t h
behind-append found (c ∷ s) t h =
    ground (arith, behind-append (s ++ b'_' ∷ t) s t h, behind-append found s t h)

behind-key :
    (found symbol timeframe t : Text)
    → AreDigits t
    → behind_last found (symbol ++ b'_' ∷ timeframe ++ b'_' ∷ t) ≡ t
unfolding behind_last
behind-key found [] timeframe t h = behind-append (timeframe ++ b'_' ∷ t) timeframe t h
behind-key found (c ∷ s) timeframe t h = ground (
  arith,
  behind-key (s ++ b'_' ∷ timeframe ++ b'_' ∷ t) s timeframe t h,
  behind-key found s timeframe t h,
)

-- The number of the order is read back from the key, whatever the symbol and the timeframe are.
pub key_oid-position_key :
    (symbol timeframe : Text) (oid : ℕ) → key_oid (position_key symbol timeframe oid) ≡ oid
unfolding key_oid position_key
key_oid-position_key symbol timeframe oid =
    ap (read_digits 0) (behind-key [] symbol timeframe (show_nat oid) (show_nat-AreDigits oid))
    ∙ read-show_nat oid

module _ {F : Type 0} where
  -- No key of the map ends in this number.
  abbrev pub IsNewOid : ℕ → Positions F → Type 0
  IsNewOid oid ps = All (λ kp. key_oid kp.0 ≢ oid) ps

  new_oid-Fresh : (k : Text) (ps : Positions F) → IsNewOid (key_oid k) ps → Fresh k ps
  unfolding has_key
  new_oid-Fresh k [] h = refl
  new_oid-Fresh k ((j, p) ∷ ps) h = elim (Bool-cases (text_eq j k)) [
    | inl same ↦ absurd (h.0 (ap key_oid ((text_eq_iff j k).0 same)))
    | inr other ↦ rw other (new_oid-Fresh k ps h.1)
  ]

  new_key-Fresh :
      (symbol timeframe : Text) (oid : ℕ) (ps : Positions F)
      → IsNewOid oid ps
      → Fresh (position_key symbol timeframe oid) ps
  new_key-Fresh symbol timeframe oid ps h =
      new_oid-Fresh (position_key symbol timeframe oid) ps
        (rw (key_oid-position_key symbol timeframe oid) h)

  register-kept :
      (k : Text) (p : ManagedPosition F) (ps : Positions F)
      → Fresh k ps
      → (j : Text) (q : ManagedPosition F) → lookup j ps ≡ some q
      → lookup j (insert k p ps) ≡ some q
  register-kept k p ps fresh j q e =
      ground (arith, text_eq_iff k j, lookup-none k ps fresh, lookup-insert k j p ps)

  -- Registering an order whose number no key ends in puts its position under its key and leaves
  -- every other position findable as it was; the map has one more entry, and no key stands twice if
  -- none did.
  pub register_position_lem :
      (now : ℕ) (symbol timeframe : Text) (new : NewPosition F) (oid : ℕ) (ps : Positions F)
      → IsNewOid oid ps
      → HasUniqueKeys ps
      → let after = register_position now symbol timeframe new oid ps in
        (get (position_key symbol timeframe oid) after
          ≡ some (new_position now symbol timeframe new))
        × ((j : Text) (q : ManagedPosition F) → get j ps ≡ some q → get j after ≡ some q)
        × (length after ≡ length ps + 1)
        × HasUniqueKeys after
  unfolding register_position get
  register_position_lem now symbol timeframe new oid ps h unique =
      let fresh = new_key-Fresh symbol timeframe oid ps h in
      let k = position_key symbol timeframe oid in
      let p = new_position now symbol timeframe new in
      (
        ground (arith, lookup-insert k k p ps, text_eq_refl k),
        register-kept k p ps fresh,
        ground (arith, length-insert k p ps),
        insert-HasUniqueKeys k p ps unique,
      )

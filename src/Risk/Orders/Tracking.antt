-- ===== src/Risk/Orders/Tracking.antt =====
-- The positions that the manager counts: what opening and closing do to the count of each symbol.
use tv_webhook_trader.Shared.{
  ◌≡◌, refl, false, if◌then◌else◌, List, [], ◌∷◌, Option, none, some, Text, text_eq, text_eq_iff, ℤ,
  pos, ◌+ℤ◌, ◌-ℤ◌, ◌≤ℤ◌, leb_ℤ, -ℤ_parts, int_laws, lookup, insert, erase, HasUniqueKeys,
  lookup-insert, lookup-erase, insert-HasUniqueKeys, erase-HasUniqueKeys, arith, Bool-cases,
  Option-cases, inl, inr,
}
use tv_webhook_trader.Shared.Double.{Double}
use tv_webhook_trader.Risk.Orders.{
  RiskManager, PositionInfo, on_position_opened, on_position_closed, close_one, position_or_new,
}

-- max(n - 1, 0)
abbrev pub less_one : ℤ → ℤ
less_one n = if leb_ℤ (n -ℤ pos 1) (pos 0) then pos 0 else n -ℤ pos 1

still_one : (n : ℤ) → leb_ℤ (n -ℤ pos 1) (pos 0) ≡ false → pos 1 ≤ℤ n -ℤ pos 1
unfolding leb_ℤ
still_one n h = ground (arith, -ℤ_parts n (pos 1))

grown : (n : ℤ) → pos 0 ≤ℤ n → pos 1 ≤ℤ n +ℤ pos 1
grown n h = omega int_laws

module _ {F : Type 0} where
  abbrev pub count_in : Option (PositionInfo F) → ℤ
  count_in none = pos 0
  count_in (some p) = p.count

  -- How many positions of a symbol are open, 0 for one that is not there.
  abbrev pub count_of : Text → List (Text × PositionInfo F) → ℤ
  count_of s ps = count_in (lookup s ps)

  abbrev AllPositive : List (Text × PositionInfo F) → Type 0
  AllPositive [] = Unit
  AllPositive ((k, p) ∷ ps) = (pos 1 ≤ℤ p.count) × AllPositive ps

  -- Each symbol stands once, with one position at least.
  pub record IsTracked (ps : List (Text × PositionInfo F)) : Type 0 where
    pub unique : HasUniqueKeys ps
    pub positive : AllPositive ps

  insert-AllPositive :
      (k : Text) (p : PositionInfo F) (ps : List (Text × PositionInfo F))
      → pos 1 ≤ℤ p.count
      → AllPositive ps
      → AllPositive (insert k p ps)
  unfolding insert
  insert-AllPositive k p [] h a = (h, tt)
  insert-AllPositive k p ((j, q) ∷ ps) h a = ground (arith, insert-AllPositive k p ps h a.1)

  erase-AllPositive :
      (k : Text) (ps : List (Text × PositionInfo F)) → AllPositive ps → AllPositive (erase k ps)
  unfolding erase
  erase-AllPositive k [] a = tt
  erase-AllPositive k ((j, q) ∷ ps) a = ground (arith, erase-AllPositive k ps a.1)

  lookup-positive :
      (k : Text) (p : PositionInfo F) (ps : List (Text × PositionInfo F))
      → AllPositive ps
      → lookup k ps ≡ some p
      → pos 1 ≤ℤ p.count
  unfolding lookup
  lookup-positive k p [] a e = cc
  lookup-positive k p ((j, q) ∷ ps) a e = ground (arith, lookup-positive k p ps a.1)

  count_nonneg :
      (s : Text) (ps : List (Text × PositionInfo F)) → AllPositive ps → pos 0 ≤ℤ count_of s ps
  count_nonneg s ps a = elim (Option-cases (lookup s ps)) [
    | inl e ↦ rw e (omega arith)
    | inr (p, e) ↦ rw e (omega (arith, lookup-positive s p ps a e))
  ]

  absent_same :
      (s t : Text) (ps : List (Text × PositionInfo F))
      → lookup s ps ≡ none
      → count_of t ps ≡ (if text_eq s t then less_one (pos 0) else count_of t ps)
  unfolding leb_ℤ ◌-ℤ◌
  absent_same s t ps e = ground (arith, text_eq_iff s t)

  insert-IsTracked :
      (k t : Text) (p : PositionInfo F) (ps : List (Text × PositionInfo F))
      → pos 1 ≤ℤ p.count
      → IsTracked ps
      → IsTracked (insert k p ps)
        × (count_of t (insert k p ps) ≡ (if text_eq k t then p.count else count_of t ps))
  insert-IsTracked k t p ps h v = (
    record {
      unique = insert-HasUniqueKeys k p ps v.unique;
      positive = insert-AllPositive k p ps h v.positive;
    },
    ground (arith, lookup-insert k t p ps),
  )

  erase-IsTracked :
      (k t : Text) (ps : List (Text × PositionInfo F))
      → IsTracked ps
      → IsTracked (erase k ps)
        × (count_of t (erase k ps) ≡ (if text_eq k t then pos 0 else count_of t ps))
  erase-IsTracked k t ps v = (
    record {
      unique = erase-HasUniqueKeys k ps v.unique;
      positive = erase-AllPositive k ps v.positive;
    },
    ground (arith, lookup-erase k t ps v.unique),
  )

  close_one-IsTracked :
      (s t : Text) (o : Option (PositionInfo F)) (ps : List (Text × PositionInfo F))
      → lookup s ps ≡ o
      → IsTracked ps
      → IsTracked (close_one s o ps)
        × (count_of t (close_one s o ps)
            ≡ (if text_eq s t then less_one (count_in o) else count_of t ps))
  unfolding close_one
  close_one-IsTracked s t none ps e v = (v, absent_same s t ps e)
  close_one-IsTracked s t (some p) ps e v = elim (Bool-cases (leb_ℤ (p.count -ℤ pos 1) (pos 0))) [
    | inl last ↦ rw last (erase-IsTracked s t ps v)
    | inr more ↦
        rw more (
          insert-IsTracked s t (record p { count = p.count -ℤ pos 1 }) ps (still_one p.count more)
            v)
  ]

  opened-IsTracked :
      (s t : Text) (n : ℤ) (q : F) (side : Text) (ps : List (Text × PositionInfo F))
      → n ≡ count_of s ps
      → IsTracked ps
      → let after = insert s (record { count = n +ℤ pos 1; total_qty = q; side = side }) ps in
        IsTracked after
        × (count_of t after ≡ (if text_eq s t then count_of s ps +ℤ pos 1 else count_of t ps))
  opened-IsTracked s t n q side ps e v =
      rw e (insert-IsTracked s t _ ps (grown (count_of s ps) (count_nonneg s ps v.positive)) v)

module _ {F : Type 0} ⦃d : Double F⦄ where
  same_count : (o : Option (PositionInfo F)) → (position_or_new o).count ≡ count_in o
  same_count none = refl
  same_count (some p) = refl

  -- Opening a position adds one to the count of its symbol and leaves the other counts alone. If
  -- every symbol stands once with a positive count, it stays so.
  pub on_position_opened_lem :
      (s t side : Text) (qty : F) (m : RiskManager F)
      → IsTracked m.positions
      → let after = (on_position_opened s qty side m).positions in
        IsTracked after
        × (count_of t after
            ≡ (if text_eq s t then count_of s m.positions +ℤ pos 1 else count_of t m.positions))
  unfolding on_position_opened
  on_position_opened_lem s t side qty m v =
      opened-IsTracked s t _ _ side m.positions (same_count (lookup s m.positions)) v

  -- Closing a position takes one off the count of its symbol, if there is any, and leaves the other
  -- counts alone. If every symbol stands once with a positive count, it stays so.
  pub on_position_closed_lem :
      (s t : Text) (pnl : F) (m : RiskManager F)
      → IsTracked m.positions
      → let after = (on_position_closed s pnl m).positions in
        IsTracked after
        × (count_of t after
            ≡ (if text_eq s t then less_one (count_of s m.positions) else count_of t m.positions))
  unfolding on_position_closed
  on_position_closed_lem s t pnl m v =
      close_one-IsTracked s t (lookup s m.positions) m.positions refl v

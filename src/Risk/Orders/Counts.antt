-- ===== src/Risk/Orders/Counts.antt =====
-- How many positions of a symbol the manager lets a client open that asks before each order.
use tv_webhook_trader.Shared.{
  ℕ, ◌≡◌, refl, inl, inr, true, false, if◌then◌else◌, List, [], ◌∷◌, Option, none, some, Text, ℤ,
  pos, ◌+ℤ◌, ◌-ℤ◌, leb_ℤ, +ℤ_parts, -ℤ_parts, lookup, erase, lookup-All, insert-All, All, arith,
  Bool-cases,
}
use tv_webhook_trader.Shared.Double.{Double}
use tv_webhook_trader.Core.Types.{OrderRequest, TradeSide, open_side, close_side}
use tv_webhook_trader.Risk.Orders.{
  RiskManager, RiskLimits, PositionInfo, validate, is_full, close_one, position_or_new,
  on_order_placed, on_order_done, on_position_opened, on_position_closed, update_pnl, reset_daily,
  set_allowed_symbols,
}

-- What a client does: it asks before each order, and reports an order of the opening side as an opened
-- position; it reports closed positions and results, and starts days and sets the symbols as it likes.
pub data Use (F : Type 0) : Type 0 where
  orders : OrderRequest F → Text → Use F
  closes : Text → F → Use F
  books : F → Use F
  resets : ℕ → Use F
  allows : List Text → Use F

one_more : (k n : ℤ) → leb_ℤ n k ≡ false → leb_ℤ (k +ℤ pos 1) n ≡ true
unfolding leb_ℤ
one_more k n h = ground (arith, +ℤ_parts k (pos 1))

one_less : (k n : ℤ) → leb_ℤ k n ≡ true → leb_ℤ (k -ℤ pos 1) n ≡ true
unfolding leb_ℤ
one_less k n h = ground (arith, -ℤ_parts k (pos 1))

module _ {F : Type 0} where
  erase-All :
      (P : Text × PositionInfo F → Type 0) (k : Text) (m : List (Text × PositionInfo F))
      → All P m
      → All P (erase k m)
  unfolding erase
  erase-All P k [] a = tt
  erase-All P k ((j, q) ∷ m) a = ground (arith, erase-All P k m a.1)

  -- No symbol counts more than n positions.
  abbrev pub CountsWithin : ℤ → List (Text × PositionInfo F) → Type 0
  CountsWithin n ps = All (λ kp. leb_ℤ kp.1.count n ≡ true) ps

  close_one-CountsWithin :
      (n : ℤ) (s : Text) (o : Option (PositionInfo F)) (ps : List (Text × PositionInfo F))
      → lookup s ps ≡ o
      → CountsWithin n ps
      → CountsWithin n (close_one s o ps)
  unfolding close_one
  close_one-CountsWithin n s none ps e v = v
  close_one-CountsWithin n s (some p) ps e v =
      let held = lookup-All (λ kp. leb_ℤ kp.1.count n ≡ true) s p ps v e in
      elim (Bool-cases (leb_ℤ (p.count -ℤ pos 1) (pos 0))) [
        | inl last ↦ rw last (erase-All _ s ps v)
        | inr more ↦ rw more (
            insert-All (λ kp. leb_ℤ kp.1.count n ≡ true) s (record p { count = p.count -ℤ pos 1 })
              ps (one_less p.count n held) v)
      ]

module _ {F : Type 0} ⦃d : Double F⦄ where
  unfoldable pub report : TradeSide → OrderRequest F → Text → RiskManager F → RiskManager F
  report open_side req side m = on_position_opened req.symbol req.quantity side m
  report close_side req side m = m

  unfoldable pub use_once : RiskManager F → Use F → RiskManager F
  use_once m (orders req side) =
      let sent = on_order_done (on_order_placed m) in
      if validate req m then report req.trade_side req side sent else m
  use_once m (closes s pnl) = on_position_closed s pnl m
  use_once m (books pnl) = update_pnl pnl m
  use_once m (resets now) = reset_daily now m
  use_once m (allows ss) = set_allowed_symbols ss m

  unfoldable pub use_all : RiskManager F → List (Use F) → RiskManager F
  use_all m [] = m
  use_all m (u ∷ us) = use_all (use_once m u) us

  -- The limit for each symbol is that of n whole positions, at least one.
  pub record IsLimit (n : ℤ) (limit : F) : Type 0 where
    pub positive : leb_ℤ (pos 1) n ≡ true
    pub whole : (k : ℤ) → d.le limit (d.of_int k) ≡ leb_ℤ n k

  record IsWithin (n : ℤ) (limits : RiskLimits F) (m : RiskManager F) : Type 0 where
    same : m.limits ≡ limits
    counts : CountsWithin n m.positions

  module _ (n : ℤ) (limits : RiskLimits F) (full : IsLimit n limits.max_position_per_symbol) where
    opened-CountsWithin :
        (o : Option (PositionInfo F))
        → is_full open_side limits.max_position_per_symbol o ≡ false
        → leb_ℤ ((position_or_new o).count +ℤ pos 1) n ≡ true
    unfolding is_full ◌+ℤ◌
    opened-CountsWithin none h = full.positive
    opened-CountsWithin (some p) h = one_more p.count n (rw (full.whole p.count) at h)

    report-IsWithin :
        (t : TradeSide) (req : OrderRequest F) (side : Text) (m : RiskManager F)
        → IsWithin n limits m
        → is_full t limits.max_position_per_symbol (lookup req.symbol m.positions) ≡ false
        → IsWithin n limits (report t req side m)
    unfolding report on_position_opened
    report-IsWithin close_side req side m v h = v
    report-IsWithin open_side req side m v h = record {
      same = v.same;
      counts =
          insert-All (λ kp. leb_ℤ kp.1.count n ≡ true) req.symbol _ m.positions
            (opened-CountsWithin (lookup req.symbol m.positions) h) v.counts;
    }

    validate-room :
        (req : OrderRequest F) (m : RiskManager F)
        → m.limits ≡ limits
        → validate req m ≡ true
        → is_full req.trade_side limits.max_position_per_symbol (lookup req.symbol m.positions)
          ≡ false
    unfolding validate
    validate-room req m same h =
        let room : is_full req.trade_side m.limits.max_position_per_symbol
              (lookup req.symbol m.positions)
            ≡ false =
          ground arith in
        rw (← same) room

    use_once-IsWithin :
        (m : RiskManager F) (u : Use F) → IsWithin n limits m → IsWithin n limits (use_once m u)
    unfolding use_once on_order_placed on_order_done on_position_closed update_pnl reset_daily
        set_allowed_symbols
    use_once-IsWithin m (orders req side) v = elim (Bool-cases (validate req m)) [
      | inr refused ↦ rw refused v
      | inl accepted ↦ rw accepted (
          report-IsWithin req.trade_side req side (on_order_done (on_order_placed m))
            (record { same = v.same; counts = v.counts }) (validate-room req m v.same accepted))
    ]
    use_once-IsWithin m (closes s pnl) v = record {
      same = v.same;
      counts = close_one-CountsWithin n s (lookup s m.positions) m.positions refl v.counts;
    }
    use_once-IsWithin m (books pnl) v = record { same = v.same; counts = v.counts }
    use_once-IsWithin m (resets now) v = record { same = v.same; counts = v.counts }
    use_once-IsWithin m (allows ss) v = record { same = v.same; counts = v.counts }

    use_all-IsWithin :
        (m : RiskManager F) (us : List (Use F))
        → IsWithin n limits m
        → IsWithin n limits (use_all m us)
    unfolding use_all
    use_all-IsWithin m [] v = v
    use_all-IsWithin m (u ∷ us) v = use_all-IsWithin (use_once m u) us (use_once-IsWithin m u v)

  -- A client that has each order checked right before it reports the position that the order opens never
  -- brings the count of any symbol above the limit for a symbol, whatever it closes, books, resets and
  -- allows besides, in whatever order. The limit stands for a whole number of positions, one at least, and
  -- the counts are within it at the start.
  pub use_all-CountsWithin :
      (n : ℤ) (m : RiskManager F) (us : List (Use F))
      → IsLimit n m.limits.max_position_per_symbol
      → CountsWithin n m.positions
      → CountsWithin n (use_all m us).positions
  use_all-CountsWithin n m us full start =
      (use_all-IsWithin n m.limits full m us (record { same = refl; counts = start })).counts

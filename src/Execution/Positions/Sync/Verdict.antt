-- ===== src/Execution/Positions/Sync/Verdict.antt =====
-- What sync_positions_with_exchange does to the positions that did not come from the exchange.
use tv_webhook_trader.Shared.{
  ℕ, ◌≡◌, refl, sym, ap, ◌∙◌, Bool, true, false, not, ◌&&◌, ◌||◌, if◌then◌else◌, List, [], ◌∷◌,
  Option, none, some, Text, text_eq, text_eq_iff, contains, lookup, insert, HasUniqueKeys,
  lookup-insert, lookup-none, arith,
}
use mathlib.Core.Option
use mathlib.Core.Path.{ap₂}
use tv_webhook_trader.Shared.Double.{Double}
use tv_webhook_trader.Shared.Json.{Json, Outcome, done, thrown}
use tv_webhook_trader.Risk.Position.{ManagedPosition, Positions}
use tv_webhook_trader.Execution.Positions.Exchange.{ExchangePos, side_name, exchange_positions}
use tv_webhook_trader.Execution.Positions.Sync.{
  Sweep, ext_key, is_ext, is_expired, is_there, marked, mark_real, other_side, remove_later, turned,
  turn, visit, visit_at, keys_of, sweep, erase_all, import_positions, from_exchange, names_of,
  reconcile, sync_positions_with_exchange,
}
use tv_webhook_trader.Execution.Positions.Sync.Keys.{
  contains-keys_of, ext_key-is_ext, ext-apart, lookup-mark_real, mark_real-HasUniqueKeys,
  sweep-HasUniqueKeys, lookup-erase_all,
}

module _ {F : Type 0} where
  -- What becomes of a position: the exchange has it, it is a real one that the exchange does not have, or
  -- it is on paper and too old, or not.
  abbrev pub verdict :
      ℕ → List (Text × ExchangePos F) → ManagedPosition F → Option (ManagedPosition F)
  verdict now ex p =
      if is_there ex p
      then some (record p { is_real = true })
      else if p.is_real || is_expired now p.opened_at
      then none
      else some p

  abbrev pub judged :
      ℕ → List (Text × ExchangePos F) → Option (ManagedPosition F) → Option (ManagedPosition F)
  judged now ex none = none
  judged now ex (some p) = verdict now ex p

  module _ (now : ℕ) (ex : List (Text × ExchangePos F)) where
    abbrev doomed : Option (ManagedPosition F) → Bool
    doomed none = false
    doomed (some p) = not (is_there ex p) && (p.is_real || is_expired now p.opened_at)

    module _ (k : Text) (ordinary : is_ext k ≡ false) where
      turn-lookup :
          (j : Text) (p : ManagedPosition F) (o : Option (ExchangePos F)) (w : Sweep F)
          → is_ext j ≡ true
          → lookup k (turn j p o w).positions ≡ lookup k w.positions
      unfolding turn remove_later
      turn-lookup j p none w h = refl
      turn-lookup j p (some ep) w h =
          let new_key = ext_key ep.symbol ep.hold_side in
          let q = turned ep p in
          ground (
            arith,
            lookup-insert j k q w.positions,
            lookup-insert new_key k q (insert j q w.positions),
            ext-apart j k h ordinary,
            ext-apart new_key k (ext_key-is_ext ep.symbol ep.hold_side) ordinary,
          )

      turn-to_remove :
          (j : Text) (p : ManagedPosition F) (o : Option (ExchangePos F)) (w : Sweep F)
          → is_ext j ≡ true
          → contains (turn j p o w).to_remove k ≡ contains w.to_remove k
      unfolding turn remove_later contains
      turn-to_remove j p none w h = ground (arith, ext-apart j k h ordinary)
      turn-to_remove j p (some ep) w h = ground (arith, ext-apart j k h ordinary)

      visit_at-lookup :
          (j : Text) (o : Option (ManagedPosition F)) (w : Sweep F)
          → lookup k (visit_at now ex j o w).positions ≡ lookup k w.positions
      unfolding visit_at visit remove_later
      visit_at-lookup j none w = refl
      visit_at-lookup j (some p) w =
          let other = lookup (side_name p.symbol (other_side p.side)) ex in
          ground (arith, turn-lookup j p other w)

      visit_at-to_remove :
          (j : Text) (o : Option (ManagedPosition F)) (w : Sweep F)
          → contains (visit_at now ex j o w).to_remove k
            ≡ (contains w.to_remove k || (text_eq j k && doomed o))
      unfolding visit_at visit remove_later contains
      visit_at-to_remove j none w = ground arith
      visit_at-to_remove j (some p) w =
          let other = lookup (side_name p.symbol (other_side p.side)) ex in
          ground
            (arith, turn-to_remove j p other w, λ (h : is_ext j ≡ true). ext-apart j k h ordinary)

      sweep-lookup :
          (keys : List Text) (w : Sweep F)
          → lookup k (sweep now ex keys w).positions ≡ lookup k w.positions
      unfolding sweep
      sweep-lookup [] w = refl
      sweep-lookup (j ∷ keys) w =
          sweep-lookup keys (visit_at now ex j (lookup j w.positions) w)
          ∙ visit_at-lookup j (lookup j w.positions) w

      -- The key is to be removed exactly if it is met and its position is doomed.
      sweep-to_remove :
          (keys : List Text) (w : Sweep F)
          → contains (sweep now ex keys w).to_remove k
            ≡ (contains w.to_remove k || (contains keys k && doomed (lookup k w.positions)))
      unfolding sweep contains
      sweep-to_remove [] w = ground arith
      sweep-to_remove (j ∷ keys) w =
          let o = lookup j w.positions in
          let w' = visit_at now ex j o w in
          let same = λ (e : text_eq j k ≡ true).
            ap (λ t. doomed (lookup t w.positions)) ((text_eq_iff j k).0 e) in
          ground (
            arith,
            sweep-to_remove keys w',
            visit_at-to_remove j o w,
            ap doomed (visit_at-lookup j o w),
            same,
          )

      module _ ⦃d : Double F⦄ where
        import_positions-lookup :
            (names changed : List Text) (rest : List (Text × ExchangePos F)) (ps : Positions F)
            → lookup k (import_positions now names changed rest ps) ≡ lookup k ps
        unfolding import_positions
        import_positions-lookup names changed [] ps = refl
        import_positions-lookup names changed ((name, ep) ∷ rest) ps =
            let held = contains changed ep.symbol || contains names name in
            let key = ext_key ep.symbol ep.hold_side in
            let new = insert key (from_exchange now ep) ps in
            let step : lookup k (if held then ps else new) ≡ lookup k ps = ground (
              arith,
              lookup-insert key k (from_exchange now ep) ps,
              ext-apart key k (ext_key-is_ext ep.symbol ep.hold_side) ordinary,
            ) in
            import_positions-lookup names changed rest (if held then ps else new) ∙ step

        is_there-marked : (p : ManagedPosition F) → is_there ex (marked ex p) ≡ is_there ex p
        unfolding marked is_there
        is_there-marked p = ground arith

        marked-verdict :
            (p : ManagedPosition F)
            → (if doomed (some (marked ex p)) then none else some (marked ex p)) ≡ verdict now ex p
        unfolding marked
        marked-verdict p = ground (arith, is_there-marked p)

        -- The removal, by what is known of the walk.
        removal :
            (o : Option (ManagedPosition F)) (there : Bool)
            → (there ≡ false → o ≡ none)
            → (if there && doomed o then none else o) ≡ (if doomed o then none else o)
        removal none there h = ground arith
        removal (some p) there h = ground arith

        judged-marked :
            (o : Option (ManagedPosition F))
            → (if doomed (Option.map (marked ex) o) then none else Option.map (marked ex) o)
              ≡ judged now ex o
        judged-marked none = refl
        judged-marked (some p) = marked-verdict p

        reconcile-judged :
            (ps : Positions F)
            → HasUniqueKeys ps
            → lookup k (reconcile now ex ps) ≡ judged now ex (lookup k ps)
        unfolding reconcile contains
        reconcile-judged ps u =
            let real = mark_real ex ps in
            let start : Sweep F = record { positions = real; to_remove = []; side_changed = [] } in
            let w = sweep now ex (keys_of real) start in
            let kept = erase_all w.to_remove w.positions in
            let o = lookup k real in
            let there = contains (keys_of real) k in
            let unique =
              sweep-HasUniqueKeys now ex (keys_of real) start (mark_real-HasUniqueKeys ex ps u) in
            let erased = lookup-erase_all k w.to_remove w.positions unique in
            let walked : (if contains w.to_remove k then none else lookup k w.positions)
                ≡ (if there && doomed o then none else o) =
              ap₂ (λ (b : Bool) (x : Option (ManagedPosition F)). if b then none else x)
                (sweep-to_remove (keys_of real) start) (sweep-lookup (keys_of real) start) in
            import_positions-lookup (names_of kept) w.side_changed ex kept
            ∙ erased
            ∙ walked
            ∙ removal o there (λ h. lookup-none k real (sym (contains-keys_of k real) ∙ h))
            ∙ ap (λ x. if doomed x then none else x) (lookup-mark_real ex k ps)
            ∙ judged-marked (lookup k ps)

module _ {F J : Type 0} ⦃d : Double F⦄ (json : Json F J) (now : ℕ) (resp : J) where
  -- By what the exchange answers.
  abbrev pub IsJudged :
      Outcome (Option (List (Text × ExchangePos F))) → Text → Positions F → Positions F → Type 0
  IsJudged (done (some ex)) k ps after = lookup k after ≡ judged now ex (lookup k ps)
  IsJudged (done none) k ps after = after ≡ ps
  IsJudged thrown k ps after = after ≡ ps

  -- If the exchange lists its positions, then a position whose key is not one that sync gives out is kept
  -- and real where the exchange has its symbol and side; else it goes if it is real or four hours old, and
  -- stays as it is if not; and no key without a position gets one. If the exchange fails or its answer
  -- throws, nothing changes.
  pub sync-IsJudged :
      (ps : Positions F) (k : Text)
      → HasUniqueKeys ps
      → is_ext k ≡ false
      → IsJudged (exchange_positions json resp) k ps (sync_positions_with_exchange json now resp ps)
  unfolding sync_positions_with_exchange
  sync-IsJudged ps k u ordinary = by_answer (exchange_positions json resp)
    where
      by_answer :
          (a : Outcome (Option (List (Text × ExchangePos F))))
          → IsJudged a k ps
              (elim a [ done (some ex) ↦ reconcile now ex ps | done none ↦ ps | thrown ↦ ps ])
      by_answer (done (some ex)) = reconcile-judged now ex k ordinary ps u
      by_answer (done none) = refl
      by_answer thrown = refl

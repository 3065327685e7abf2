-- ===== src/Execution/Positions/Sync/Real.antt =====
-- That the real positions are those of the exchange, once sync_positions_with_exchange has run.
use tv_webhook_trader.Shared.{
  ℕ, ◌≡◌, refl, sym, ap, ◌∙◌, subst, ◌⊎◌, inl, inr, true, false, ◌&&◌, ◌||◌, if◌then◌else◌, List,
  [], ◌∷◌, Option, none, some, Text, text_eq, text_eq_iff, contains, lookup, has_key, insert,
  HasUniqueKeys, lookup-insert, lookup-has_key, arith, All, lookup-All, own_keys, Bool-cases,
}
use tv_webhook_trader.Shared.Double.{Double}
use tv_webhook_trader.Shared.Json.{Json, done}
use tv_webhook_trader.Risk.Position.{ManagedPosition, Positions}
use tv_webhook_trader.Execution.Positions.Exchange.{ExchangePos, side_name, exchange_positions}
use tv_webhook_trader.Execution.Positions.Sync.{
  Sweep, other_side, is_expired, ext_key, is_ext, is_there, mark_real, remove_later, turned, turn,
  visit, visit_at, keys_of, sweep, erase_all, import_positions, from_exchange, names_of, reconcile,
  sync_positions_with_exchange,
}
use tv_webhook_trader.Execution.Positions.Sync.Keys.{
  contains-keys_of, mark_real-HasUniqueKeys, sweep-HasUniqueKeys, lookup-erase_all,
}
use tv_webhook_trader.Execution.Positions.Sync.Answers.{
  IsSide, side_of_name, other_side-IsSide, IsFiled, HasSides, listed_of, exchange_positions-IsFiled,
}

module _ {F : Type 0} where
  turn_mono :
      (j k : Text) (q : ManagedPosition F) (o : Option (ExchangePos F)) (w : Sweep F)
      → contains w.to_remove k ≡ true
      → contains (turn j q o w).to_remove k ≡ true
  unfolding turn remove_later contains
  turn_mono j k q none w h = ground arith
  turn_mono j k q (some ep) w h = ground arith

  module _ (ex : List (Text × ExchangePos F)) (filed : IsFiled ex) (sides : HasSides ex) where
    -- A position that was turned is at the exchange.
    turned-is_there :
        (p : ManagedPosition F) (ep : ExchangePos F)
        → lookup (side_name p.symbol (other_side p.side)) ex ≡ some ep
        → is_there ex (turned ep p) ≡ true
    unfolding is_there turned
    turned-is_there p ep found =
        let name = lookup-All (λ e. e.0 ≡ side_name e.1.symbol e.1.hold_side) _ ep ex filed found in
        let side = lookup-All (λ e. IsSide e.1.hold_side) _ ep ex sides found in
        let same = side_of_name p.symbol ep.symbol _ _ (other_side-IsSide p.side) side name in
        subst (λ t. has_key (side_name p.symbol t) ex ≡ true) same
          ((lookup-has_key (side_name p.symbol (other_side p.side)) ex).1 ep found)

    insert_step :
        (j k : Text) (q p : ManagedPosition F) (m : Positions F)
        → lookup k (insert j q m) ≡ some p
        → (q ≡ p) ⊎ ((text_eq j k ≡ false) × (lookup k m ≡ some p))
    insert_step j k q p m h = elim (Bool-cases (text_eq j k)) [
      | inl own ↦
          let h' : (if text_eq j k then some q else lookup k m) ≡ some p =
            sym (lookup-insert j k q m) ∙ h in
          let same : some q ≡ some p = rw own at h' in inl (cc)
      | inr other ↦
          let h' : (if text_eq j k then some q else lookup k m) ≡ some p =
            sym (lookup-insert j k q m) ∙ h in
          inr (other, rw other at h')
    ]

    -- What is known of a position that is there once a key was visited: the exchange has it, or it will be
    -- removed, or it was there before, under another key.
    abbrev IsKnown : Text → Text → ManagedPosition F → Sweep F → Sweep F → Type 0
    IsKnown j k p w after =
        (is_there ex p ≡ true)
        ⊎ ((contains after.to_remove k ≡ true)
            ⊎ ((text_eq j k ≡ false) × (lookup k w.positions ≡ some p)))

    removed_later :
        (j k : Text) (p : ManagedPosition F) (w : Sweep F)
        → lookup k w.positions ≡ some p
        → IsKnown j k p w (remove_later j w)
    unfolding remove_later contains
    removed_later j k p w h = elim (Bool-cases (text_eq j k)) [
      | inl own ↦ inr (inl (rw own refl))
      | inr other ↦ inr (inr (other, h))
    ]

    turn_step :
        (j k : Text) (q p : ManagedPosition F) (o : Option (ExchangePos F)) (w : Sweep F)
        → lookup (side_name q.symbol (other_side q.side)) ex ≡ o
        → lookup k (turn j q o w).positions ≡ some p
        → IsKnown j k p w (turn j q o w)
    unfolding turn remove_later
    turn_step j k q p none w found h = removed_later j k p w h
    turn_step j k q p (some ep) w found h =
        let there = λ (same : turned ep q ≡ p).
          subst (λ x. is_there ex x ≡ true) same (turned-is_there q ep found) in
        let new_key = ext_key ep.symbol ep.hold_side in
        let t = turned ep q in
        let inner =
          λ (h : lookup k (insert j t w.positions) ≡ some p). insert_step j k t p w.positions h in
        elim (Bool-cases (text_eq new_key j)) [
          | inl same ↦
              let h' : lookup k (insert j t w.positions) ≡ some p = rw same at h in
              rw same (elim (inner h') [ inl e ↦ inl (there e) | inr old ↦ inr (inr old) ])
          | inr new ↦
              let h' : lookup k (insert new_key t (insert j t w.positions)) ≡ some p =
                rw new at h in
              rw new (elim (insert_step new_key k t p (insert j t w.positions) h') [
                | inl e ↦ inl (there e)
                | inr old ↦ elim (inner old.1) [
                  | inl e ↦ inl (there e)
                  | inr older ↦ inr (inr older)
                ]
              ])
        ]

    -- `now` is the clock's reading.
    module _ (now : ℕ) where
      visit_step :
          (j k : Text) (p : ManagedPosition F) (o : Option (ManagedPosition F)) (w : Sweep F)
          → lookup j w.positions ≡ o
          → lookup k (visit_at now ex j o w).positions ≡ some p
          → p.is_real ≡ true
          → IsKnown j k p w (visit_at now ex j o w)
      unfolding visit_at visit remove_later
      visit_step j k p none w found h real = elim (Bool-cases (text_eq j k)) [
        | inl own ↦
            let e : j ≡ k = (text_eq_iff j k).0 own in
            let found' : lookup k w.positions ≡ none = rw e at found in cc
        | inr other ↦ inr (inr (other, h))
      ]
      visit_step j k p (some q) w found h real =
          let one = λ (h : lookup k w.positions ≡ some p) (own : text_eq j k ≡ true).
            let e : j ≡ k = (text_eq_iff j k).0 own in
            let found' : lookup k w.positions ≡ some q = rw e at found in
            let same : some q ≡ some p = sym found' ∙ h in let out : q ≡ p = cc in out in
          elim (Bool-cases (is_there ex q)) [
            | inl there ↦
                let h' : lookup k w.positions ≡ some p = rw there at h in
                rw there (elim (Bool-cases (text_eq j k)) [
                  | inl own ↦ inl (subst (λ x. is_there ex x ≡ true) (one h' own) there)
                  | inr other ↦ inr (inr (other, h'))
                ])
            | inr gone ↦ elim (Bool-cases (q.is_real && is_ext j)) [
              | inl ext ↦
                  let other = lookup (side_name q.symbol (other_side q.side)) ex in
                  let h' : lookup k (turn j q other w).positions ≡ some p = rw (gone, ext) at h in
                  rw (gone, ext) (turn_step j k q p other w refl h')
              | inr int ↦ elim (Bool-cases (q.is_real || is_expired now q.opened_at)) [
                | inl drop ↦
                    let h' : lookup k w.positions ≡ some p = rw (gone, int, drop) at h in
                    rw (gone, int, drop) (removed_later j k p w h')
                | inr keep ↦
                    let h' : lookup k w.positions ≡ some p = rw (gone, int, keep) at h in
                    rw (gone, int, keep)
                      (elim (Bool-cases (text_eq j k)) [
                        | inl own ↦
                            let same : q.is_real ≡ p.is_real = ap (λ x. x.is_real) (one h' own) in
                            absurd (ground arith)
                        | inr other ↦ inr (inr (other, h'))
                      ])
              ]
            ]
          ]

      to_remove_mono :
          (j k : Text) (o : Option (ManagedPosition F)) (w : Sweep F)
          → contains w.to_remove k ≡ true
          → contains (visit_at now ex j o w).to_remove k ≡ true
      unfolding visit_at visit remove_later contains
      to_remove_mono j k none w h = h
      to_remove_mono j k (some q) w h =
          let other = lookup (side_name q.symbol (other_side q.side)) ex in
          ground (arith, turn_mono j k q other w h)

      -- A real position is at the exchange, is to be removed, or is still to be visited.
      abbrev IsCleared : List Text → Sweep F → Type 0
      IsCleared keys w =
          (k : Text) (p : ManagedPosition F)
          → lookup k w.positions ≡ some p
          → p.is_real ≡ true
          → (is_there ex p ≡ true) ⊎ ((contains w.to_remove k ≡ true) ⊎ (contains keys k ≡ true))

      sweep-IsCleared :
          (keys : List Text) (w : Sweep F) → IsCleared keys w → IsCleared [] (sweep now ex keys w)
      unfolding sweep contains
      sweep-IsCleared [] w v = v
      sweep-IsCleared (j ∷ keys) w v =
          let o = lookup j w.positions in
          let w' = visit_at now ex j o w in
          let next : IsCleared keys w' = λ k p h real. elim (visit_step j k p o w refl h real) [
            | inl there ↦ inl there
            | inr (inl gone) ↦ inr (inl gone)
            | inr (inr (other, before)) ↦ elim (v k p before real) [
              | inl there ↦ inl there
              | inr (inl gone) ↦ inr (inl (to_remove_mono j k o w gone))
              | inr (inr later) ↦ inr (inr (rw other at later))
            ]
          ] in
          sweep-IsCleared keys w' next

      -- Each entry of a part of the exchange's map is one of the map's positions.
      abbrev AreListed : List (Text × ExchangePos F) → Type 0
      AreListed = All (λ e. has_key (side_name e.1.symbol e.1.hold_side) ex ≡ true)

      abbrev AreThere : Positions F → Type 0
      AreThere ps =
          (k : Text) (p : ManagedPosition F)
          → lookup k ps ≡ some p
          → p.is_real ≡ true
          → is_there ex p ≡ true

      module _ ⦃d : Double F⦄ where
        import_positions-AreThere :
            (names changed : List Text) (rest : List (Text × ExchangePos F)) (ps : Positions F)
            → AreListed rest
            → AreThere ps
            → AreThere (import_positions now names changed rest ps)
        unfolding import_positions is_there
        import_positions-AreThere names changed [] ps listed v = v
        import_positions-AreThere names changed ((name, ep) ∷ rest) ps listed v =
            let held = contains changed ep.symbol || contains names name in
            let key = ext_key ep.symbol ep.hold_side in
            let new = insert key (from_exchange now ep) ps in
            let next : AreThere (if held then ps else new) = λ k p h real. elim (Bool-cases held) [
              | inl old ↦ v k p (rw old at h) real
              | inr unheld ↦ elim (insert_step key k (from_exchange now ep) p ps (rw unheld at h)) [
                | inl same ↦ subst (λ x. is_there ex x ≡ true) same listed.0
                | inr before ↦ v k p before.1 real
              ]
            ] in
            import_positions-AreThere names changed rest (if held then ps else new) listed.1 next

        reconcile-AreThere :
            (ps : Positions F) → HasUniqueKeys ps → AreListed ex → AreThere (reconcile now ex ps)
        unfolding reconcile contains
        reconcile-AreThere ps u listed =
            let known = mark_real ex ps in
            let start : Sweep F = record { positions = known; to_remove = []; side_changed = [] } in
            let keys = keys_of known in
            let w = sweep now ex keys start in
            let kept = erase_all w.to_remove w.positions in
            let before : IsCleared keys start =
              λ k p h real. inr (inr (contains-keys_of k known ∙ (lookup-has_key k known).1 p h)) in
            let cleared = sweep-IsCleared keys start before in
            let unique = sweep-HasUniqueKeys now ex keys start (mark_real-HasUniqueKeys ex ps u) in
            let there : AreThere kept = λ k p h real.
              let h' : (if contains w.to_remove k then none else lookup k w.positions) ≡ some p =
                sym (lookup-erase_all k w.to_remove w.positions unique) ∙ h in
              elim (Bool-cases (contains w.to_remove k)) [
                | inl gone ↦ let never : none ≡ some p = rw gone at h' in cc
                | inr stays ↦ elim (cleared k p (rw stays at h') real) [
                  | inl at_exchange ↦ at_exchange
                  | inr (inl gone) ↦ cc
                  | inr (inr never) ↦ cc
                ]
              ] in
            import_positions-AreThere (names_of kept) w.side_changed ex kept listed there

module _ {F J : Type 0} ⦃d : Double F⦄ (json : Json F J) where
  -- If the exchange lists its positions, and calls each side long or short, then every real position is
  -- one that the exchange has under its symbol and side, once sync_positions_with_exchange has run:
  -- whatever was held before, a position that had turned to the other side included.
  pub sync-AreThere :
      (now : ℕ) (resp : J) (ex : List (Text × ExchangePos F)) (ps : Positions F)
      → exchange_positions json resp ≡ done (some ex)
      → HasSides ex
      → HasUniqueKeys ps
      → (k : Text) (p : ManagedPosition F)
      → lookup k (sync_positions_with_exchange json now resp ps) ≡ some p
      → p.is_real ≡ true
      → is_there ex p ≡ true
  unfolding sync_positions_with_exchange
  sync-AreThere now resp ex ps answered sides u k p h real =
      let filed = exchange_positions-IsFiled json resp ex answered in
      let h' : lookup k (reconcile now ex ps) ≡ some p =
        rw (answered, sync_positions_with_exchange) at h in
      reconcile-AreThere ex filed sides now ps u (listed_of ex ex (own_keys ex) filed) k p h' real

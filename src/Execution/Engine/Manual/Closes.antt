-- ===== src/Execution/Engine/Manual/Closes.antt =====
-- What close_all_positions leaves, whatever other threads do between its rounds.
use tv_webhook_trader.Shared.{
  ℕ, ◌+◌, ◌-◌, ◌≤◌, ◌≡◌, ◌∙◌, refl, ap, inl, inr, Bool, true, ◌&&◌, if◌then◌else◌, List, [], ◌∷◌,
  Text, text_eq, text_eq_iff, arith, Bool-cases, Option-cases, length,
}
use tv_webhook_trader.Shared.Double.{Double, nought}
use tv_webhook_trader.Risk.Position.{Positions}
use tv_webhook_trader.Execution.Positions.{is_match, find_and_prepare_ws_close}
use tv_webhook_trader.Execution.Positions.First.{NoneHeld}
use tv_webhook_trader.Execution.Engine.{Engine, Moment}
use tv_webhook_trader.Execution.Engine.Closing.{WsPositionUpdate, on_ws_position, score_close}
use tv_webhook_trader.Execution.Engine.Manual.{
  to_close, drop_closed, close_rounds, close_all_positions,
}

abbrev bit : Bool → ℕ
bit b = if b then 1 else 0

abbrev is_name : Text → Text → Text × Text → Bool
is_name symbol side x = text_eq x.0 symbol && text_eq x.1 side

names : Text → Text → List (Text × Text) → ℕ
names symbol side [] = 0
names symbol side (x ∷ xs) = bit (is_name symbol side x) + names symbol side xs

module _ {F : Type 0} where
  pub matches : Text → Text → Positions F → ℕ
  matches symbol side [] = 0
  matches symbol side ((_, p) ∷ ps) = bit (is_match symbol side p) + matches symbol side ps

  names-to_close : (s b : Text) (ps : Positions F) → names s b (to_close ps) ≡ matches s b ps
  unfolding names matches to_close
  names-to_close s b [] = refl
  names-to_close s b ((_, p) ∷ ps) = ap (λ k. bit (is_match s b p) + k) (names-to_close s b ps)

  length-to_close : (ps : Positions F) → length (to_close ps) ≡ length ps
  unfolding to_close
  length-to_close [] = refl
  length-to_close ((_, p) ∷ ps) = omega (arith, length-to_close ps)

  -- Taking out a position adds none.
  matches-taken :
      (s b symbol side : Text) (ps : Positions F)
      → matches s b (find_and_prepare_ws_close symbol side ps).1 ≤ matches s b ps
  unfolding matches find_and_prepare_ws_close
  matches-taken s b symbol side [] = omega arith
  matches-taken s b symbol side ((k, p) ∷ ps) = elim (Bool-cases (is_match symbol side p)) [
    | inl found ↦ rw found (omega arith)
    | inr other ↦ rw other (omega (arith, matches-taken s b symbol side ps))
  ]

  -- Of the name itself there is one less, if there was any.
  matches-own :
      (s b : Text) (ps : Positions F)
      → matches s b (find_and_prepare_ws_close s b ps).1 ≤ matches s b ps - 1
  unfolding matches find_and_prepare_ws_close
  matches-own s b [] = omega arith
  matches-own s b ((k, p) ∷ ps) = elim (Bool-cases (is_match s b p)) [
    | inl found ↦ rw found (omega arith)
    | inr other ↦ rw other (rw other (omega (arith, matches-own s b ps)))
  ]

  matches-NoneHeld : (s b : Text) (ps : Positions F) → matches s b ps ≡ 0 → NoneHeld s b ps
  unfolding matches
  matches-NoneHeld s b [] e = tt
  matches-NoneHeld s b ((k, p) ∷ ps) e = (ground arith, matches-NoneHeld s b ps (omega arith))

module _ {F : Type 0} ⦃d : Double F⦄ where
  -- What the other threads do meanwhile opens no position of the name.
  abbrev pub OpensNone : Text → Text → (ℕ → Engine F → Engine F) → Type 0
  OpensNone s b others =
      (n : ℕ) (e : Engine F) → matches s b (others n e).positions ≤ matches s b e.positions

  -- How many of the requests, from number n on, the exchange says yes to.
  pub agreed : Moment F → ℕ → List (Text × Text) → ℕ
  agreed m n [] = 0
  agreed m n ((symbol, side) ∷ xs) =
      bit (m.flash_close_position symbol side n) + agreed m (n + 1) xs

  close_rounds-counts :
      (m : Moment F) (others : ℕ → Engine F → Engine F) (n : ℕ) (xs : List (Text × Text))
      (e : Engine F)
      → let c = (close_rounds m others n xs e).1 in
        (c.closed ≡ agreed m n xs) × (c.closed + c.failed ≡ length xs)
  unfolding close_rounds agreed
  close_rounds-counts m others n [] e = (refl, refl)
  close_rounds-counts m others n ((symbol, side) ∷ xs) e =
      elim (Bool-cases (m.flash_close_position symbol side n)) [
        | inl ok ↦
            let rest =
              close_rounds-counts m others (n + 1) xs (drop_closed symbol side (others n e)) in
            rw ok (omega (arith, rest.0), omega (arith, rest.1))
        | inr refused ↦
            let rest = close_rounds-counts m others (n + 1) xs (others n e) in
            rw refused (omega (arith, rest.0), omega (arith, rest.1))
      ]

  drop_closed-own :
      (s b : Text) (e : Engine F)
      → matches s b (drop_closed s b e).positions ≤ matches s b e.positions - 1
  unfolding drop_closed
  drop_closed-own s b e = matches-own s b e.positions

  drop_closed-taken :
      (s b symbol side : Text) (e : Engine F)
      → matches s b (drop_closed symbol side e).positions ≤ matches s b e.positions
  unfolding drop_closed
  drop_closed-taken s b symbol side e = matches-taken s b symbol side e.positions

  close_rounds-gone :
      (m : Moment F) (others : ℕ → Engine F → Engine F) (s b : Text)
      → ((n : ℕ) → m.flash_close_position s b n ≡ true)
      → OpensNone s b others
      → (n : ℕ) (xs : List (Text × Text)) (e : Engine F) → matches s b e.positions ≤ names s b xs
      → matches s b (close_rounds m others n xs e).0.positions ≡ 0
  unfolding close_rounds names
  close_rounds-gone m others s b agrees calm n [] e h = omega arith
  close_rounds-gone m others s b agrees calm n ((symbol, side) ∷ xs) e h =
      let met = others n e in
      let rest = close_rounds-gone m others s b agrees calm (n + 1) xs in
      elim (Bool-cases (is_name s b (symbol, side))) [
        | inl own ↦
            let es : symbol ≡ s = ground (arith, text_eq_iff symbol s) in
            let eb : side ≡ b = ground (arith, text_eq_iff side b) in
            let h' : matches s b e.positions ≤ 1 + names s b xs = rw own at h in
            rw (es, eb, agrees n)
              (rest (drop_closed s b met) (omega (arith, calm n e, drop_closed-own s b met)))
        | inr other ↦
            let h' : matches s b e.positions ≤ 0 + names s b xs = rw other at h in
            elim (Bool-cases (m.flash_close_position symbol side n)) [
              | inl ok ↦ rw ok (
                  rest (drop_closed symbol side met)
                    (omega (arith, calm n e, drop_closed-taken s b symbol side met)))
              | inr refused ↦ rw refused (rest met (omega (arith, calm n e)))
            ]
      ]

  -- Reports of the exchange that positions are closed open none.
  pub on_ws_position-OpensNone :
      (m : Moment F) (upd : WsPositionUpdate F) (s b : Text)
      → OpensNone s b (λ n. on_ws_position m upd)
  unfolding on_ws_position score_close
  on_ws_position-OpensNone m upd s b n e =
      let taken = matches-taken s b upd.symbol upd.hold_side e.positions in
      elim (Bool-cases (d.le upd.size nought)) [
        | inr open_still ↦ rw open_still (omega arith)
        | inl closed ↦
            elim (Option-cases (find_and_prepare_ws_close upd.symbol upd.hold_side e.positions).0) [
              | inl none_found ↦ rw (closed, none_found) taken
              | inr (kp, found) ↦ rw (closed, found) taken
            ]
      ]

  -- Whatever other threads do between its rounds, close_all_positions asks the exchange once for each
  -- position that there was at the start, and reports as closed those to which it says yes, and as failed
  -- the others. If the exchange says
  -- yes to every request for a symbol and a side, and the other threads open no such position meanwhile,
  -- whether or not they take out some themselves, then none of that symbol and side is left.
  pub close_all_positions-NoneHeld :
      (m : Moment F) (others : ℕ → Engine F → Engine F) (e : Engine F) (symbol side : Text)
      → ((n : ℕ) → m.flash_close_position symbol side n ≡ true)
      → OpensNone symbol side others
      → let r = close_all_positions m others e in
        (r.1.closed ≡ agreed m 1 (to_close e.positions))
        × (r.1.closed + r.1.failed ≡ length e.positions)
        × NoneHeld symbol side r.0.positions
  unfolding close_all_positions
  close_all_positions-NoneHeld m others e symbol side agrees calm =
      let xs = to_close e.positions in
      let all : matches symbol side e.positions ≤ names symbol side xs =
        omega (arith, names-to_close symbol side e.positions) in
      let counts = close_rounds-counts m others 1 xs e in
      (
        counts.0,
        counts.1 ∙ length-to_close e.positions,
        matches-NoneHeld symbol side _
            (close_rounds-gone m others symbol side agrees calm 1 xs e all),
      )

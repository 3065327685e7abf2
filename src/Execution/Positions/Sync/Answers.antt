-- ===== src/Execution/Positions/Sync/Answers.antt =====
-- What the exchange's answer holds: each position under its symbol and side, which is long or short.
use tv_webhook_trader.Shared.{
  ℕ, ◌≡◌, ◌≢◌, refl, sym, ap, ◌∙◌, subst, ◌⊎◌, inl, inr, true, ◌&&◌, List, [], ◌∷◌, ◌++◌, none,
  some, Text, codes, text_eq, back, has_key, arith, All, insert-All, not, is_empty, Bool-cases,
}
use tv_webhook_trader.Shared.Double.{Double, nought}
use tv_webhook_trader.Shared.Json.{Json, Outcome, done, thrown, Outcome-cases}
use tv_webhook_trader.Execution.Positions.Exchange.{
  ExchangePos, side_name, file_position, read_position, read_positions, rows, exchange_positions,
}
use tv_webhook_trader.Execution.Positions.Sync.{other_side}

back-append : (s t : Text) (c : ℕ) → back (s ++ c ∷ t) ≡ back (c ∷ t)
back-append [] t c = refl
back-append (x ∷ []) t c = refl
back-append (x ∷ y ∷ s) t c = back-append (y ∷ s) t c

abbrev pub IsSide : Text → Type 0
IsSide side = (side ≡ codes "long") ⊎ (side ≡ codes "short")

ends_apart : (s t : Text) → side_name s (codes "long") ≢ side_name t (codes "short")
ends_apart s t e =
    omega (arith, ap back e, back-append s (codes "long") b':', back-append t (codes "short") b':')

-- The last byte tells the sides apart.
pub side_of_name : (s t a b : Text) → IsSide a → IsSide b → side_name s a ≡ side_name t b → a ≡ b
side_of_name s t a b (inl x) (inl y) e = x ∙ sym y
side_of_name s t a b (inr x) (inr y) e = x ∙ sym y
side_of_name s t a b (inl x) (inr y) e = absurd (ends_apart s t (rw (x, y) at e))
side_of_name s t a b (inr x) (inl y) e = absurd (ends_apart t s (sym (rw (x, y) at e)))

pub other_side-IsSide : (side : Text) → IsSide (other_side side)
other_side-IsSide side = elim (Bool-cases (text_eq side (codes "long"))) [
  | inl e ↦ rw e (inr refl)
  | inr e ↦ rw e (inl refl)
]

module _ {F : Type 0} where
  -- A position of the exchange is filed under its symbol and side.
  abbrev pub IsFiled : List (Text × ExchangePos F) → Type 0
  IsFiled = All (λ e. e.0 ≡ side_name e.1.symbol e.1.hold_side)

  pub listed_of :
      (m rest : List (Text × ExchangePos F))
      → All (λ e. has_key e.0 m ≡ true) rest
      → IsFiled rest
      → All (λ e. has_key (side_name e.1.symbol e.1.hold_side) m ≡ true) rest
  listed_of m [] h v = tt
  listed_of m (e ∷ rest) h v = (subst (λ t. has_key t m ≡ true) v.0 h.0, listed_of m rest h.1 v.1)

  -- The exchange calls a side long or short.
  abbrev pub HasSides : List (Text × ExchangePos F) → Type 0
  HasSides = All (λ e. IsSide e.1.hold_side)

module _ {F J : Type 0} ⦃d : Double F⦄ (json : Json F J) where
  file_position-IsFiled :
      (ep : ExchangePos F) (ex : List (Text × ExchangePos F))
      → IsFiled ex
      → IsFiled (file_position ep ex)
  unfolding file_position
  file_position-IsFiled ep ex v =
      elim (Bool-cases (not (is_empty ep.symbol) && d.lt nought ep.total)) [
        | inl open_there ↦ rw open_there (
            insert-All (λ e. e.0 ≡ side_name e.1.symbol e.1.hold_side)
              (side_name ep.symbol ep.hold_side) ep ex refl v)
        | inr none_there ↦ rw none_there v
      ]

  read_positions-IsFiled :
      (js : List J) (ex after : List (Text × ExchangePos F))
      → IsFiled ex
      → read_positions json js ex ≡ done after
      → IsFiled after
  unfolding read_positions
  read_positions-IsFiled [] ex after v h = subst IsFiled (same h) v
    where
      same : ◌≡◌ {A = Outcome (List (Text × ExchangePos F))} (done ex) (done after) → ex ≡ after
      same e = cc
  read_positions-IsFiled (j ∷ js) ex after v h = elim (Outcome-cases (read_position json j)) [
    | inl (ep, e) ↦
        read_positions-IsFiled js (file_position ep ex) after (file_position-IsFiled ep ex v)
          (rw e at h)
    | inr e ↦ let never : thrown ≡ done after = rw e at h in cc
  ]

  pub exchange_positions-IsFiled :
      (resp : J) (ex : List (Text × ExchangePos F))
      → exchange_positions json resp ≡ done (some ex)
      → IsFiled ex
  unfolding exchange_positions
  exchange_positions-IsFiled resp ex h =
      elim (Outcome-cases (json.value_text resp (codes "code") (codes "99999"))) [
        | inr t ↦ let never : thrown ≡ done (some ex) = rw t at h in cc
        | inl (code, c) ↦ elim (Bool-cases (text_eq code (codes "00000"))) [
          | inr bad ↦ let never : done none ≡ done (some ex) = rw (c, bad) at h in cc
          | inl good ↦ elim (Outcome-cases (read_positions json (rows json resp) [])) [
            | inr t ↦ let never : thrown ≡ done (some ex) = rw (c, good, t) at h in cc
            | inl (read, r) ↦
                let same : done (some read) ≡ done (some ex) = rw (c, good, r) at h in
                subst IsFiled (cc) (read_positions-IsFiled (rows json resp) [] read tt r)
          ]
        ]
      ]

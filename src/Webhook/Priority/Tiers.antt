-- ===== src/Webhook/Priority/Tiers.antt =====
-- The priority is the one of the time frame, in the three units in which it is written.
use tv_webhook_trader.Shared.{
  ℕ, ◌*◌, ◌^◌, ◌≤◌, ◌<◌, ◌≡◌, refl, ap, ◌∙◌, if◌then◌else◌, [], ◌∷◌, ◌++◌, Text, codes, back,
  drop_last_n, pos, ◌*ℤ◌, leb_ℤ, arith, ltb, length, length-append, take, take-append_self,
}
use tv_webhook_trader.Shared.Decimal.{
  show_nat, stoi, stoi-show_nat, AreDigits, show_nat-AreDigits, show_nat-length,
}
use tv_webhook_trader.Webhook.Priority.{calc_priority, minutes_priority, scaled}

-- The documented tiers.
abbrev pub tier : ℕ → ℕ
tier m = if ltb m 5 then 0 else if ltb m 15 then 1 else if ltb m 60 then 2 else 3

back-append : (s : Text) (c : ℕ) → back (s ++ c ∷ []) ≡ c
back-append [] c = refl
back-append (x ∷ []) c = refl
back-append (x ∷ y ∷ s) c = back-append (y ∷ s) c

back-AreDigits : (s : Text) → AreDigits s → 1 ≤ length s → (48 ≤ back s) × (back s ≤ 57)
back-AreDigits [] h l = absurd (omega arith)
back-AreDigits (x ∷ []) h l = (h.0, h.1)
back-AreDigits (x ∷ y ∷ s) h l = back-AreDigits (y ∷ s) h.2 (omega arith)

drop_last_n-one : (s : Text) (c : ℕ) → drop_last_n 1 (s ++ c ∷ []) ≡ s
drop_last_n-one s c =
    ap (λ k. take k (s ++ c ∷ [])) (omega (arith, length-append s (c ∷ [])))
    ∙ take-append_self s (c ∷ [])

minutes_priority-tier : (m : ℕ) → minutes_priority (pos m) ≡ pos (tier m)
unfolding minutes_priority leb_ℤ
minutes_priority-tier m = ground arith

*ℤ-pos : (m n : ℕ) → pos m *ℤ pos n ≡ pos (m * n)
unfolding ◌*ℤ◌
*ℤ-pos m n = ground arith

-- What `calc_priority` does once the last byte is known.
plain_frame :
    (tf : Text) → 1 ≤ length tf → (back tf ≤ 57) → calc_priority tf ≡ scaled (stoi tf) (pos 1)
unfolding calc_priority
plain_frame [] l h = absurd (omega arith)
plain_frame (c ∷ s) l h = ground arith

hour_frame :
    (tf : Text)
    → 1 ≤ length tf
    → back tf ≡ b'h'
    → calc_priority tf ≡ scaled (stoi (drop_last_n 1 tf)) (pos 60)
unfolding calc_priority
hour_frame [] l h = absurd (omega arith)
hour_frame (c ∷ s) l h = ground arith

day_frame :
    (tf : Text)
    → 1 ≤ length tf
    → back tf ≡ b'd'
    → calc_priority tf ≡ scaled (stoi (drop_last_n 1 tf)) (pos 1440)
unfolding calc_priority
day_frame [] l h = absurd (omega arith)
day_frame (c ∷ s) l h = ground arith

scaled-tier : (n k : ℕ) → n < 2 ^ 31 → scaled (stoi (show_nat n)) (pos k) ≡ pos (tier (n * k))
scaled-tier n k h =
    ap (λ o. scaled o (pos k)) (stoi-show_nat n h)
    ∙ ap minutes_priority (*ℤ-pos n k)
    ∙ minutes_priority-tier (n * k)

-- A time frame written in minutes, in hours or in days has the tier of its minutes, and a longer one
-- never a lower tier.
pub calc_priority_lem :
    (n : ℕ)
    → n < 2 ^ 31
    → (calc_priority (show_nat n) ≡ pos (tier n))
      × (calc_priority (show_nat n ++ codes "h") ≡ pos (tier (n * 60)))
      × (calc_priority (show_nat n ++ codes "d") ≡ pos (tier (n * 1440)))
      × ((m : ℕ) → m ≤ n → tier m ≤ tier n)
calc_priority_lem n h =
    let s = show_nat n in
    let digits = back-AreDigits s (show_nat-AreDigits n) (show_nat-length n) in
    (
      plain_frame s (show_nat-length n) digits.1
          ∙ scaled-tier n 1 h
          ∙ ap (λ k. pos (tier k)) {x = n * 1} {y = n} (omega arith),
      hour_frame (s ++ codes "h") (omega (arith, length-append s (codes "h"))) (back-append s b'h')
          ∙ ap (λ t. scaled (stoi t) (pos 60)) (drop_last_n-one s b'h')
          ∙ scaled-tier n 60 h,
      day_frame (s ++ codes "d") (omega (arith, length-append s (codes "d"))) (back-append s b'd')
          ∙ ap (λ t. scaled (stoi t) (pos 1440)) (drop_last_n-one s b'd')
          ∙ scaled-tier n 1440 h,
      λ m k. ground arith,
    )

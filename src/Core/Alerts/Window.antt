-- ===== src/Core/Alerts/Window.antt =====
-- The alerts are a sliding window on the history of `add` calls.
use tv_webhook_trader.Shared.{
  ℕ, suc, Bool-cases, inl, inr, ◌<◌, ◌+◌, ◌-◌, ◌≤◌, ◌≡◌, ap, ◌∙◌, sym, List, [], ◌∷◌, ◌++◌, arith,
  ltb, length, drop, length-drop, length-append, drop-append, drop-drop, latest, pos, ltb_ℤ, ◌-ℤ◌,
  map,
}
use mathlib.Core.List.{append-nil, append_assoc}
use tv_webhook_trader.Core.Alerts.{Alert, max_alerts, push, get_alerts, start_index, alert_row}

pub push_all : List Alert → List Alert → List Alert
push_all [] l = l
push_all (a ∷ new) l = push_all new (push a l)

drop-suc {ℓ} : {A : Type ℓ} (n : ℕ) (xs : List A) → drop 1 (drop n xs) ≡ drop (suc n) xs
drop-suc n xs = let e : n + 1 ≡ suc n = omega arith in drop-drop 1 n xs ∙ ap (λ k. drop k xs) e

push_short : (a : Alert) (l : List Alert) → length l < max_alerts → push a l ≡ l ++ a ∷ []
unfolding push
push_short a l h = ground (arith, length-append l (a ∷ []))

push_full : (a : Alert) (l : List Alert) → length l ≡ max_alerts → push a l ≡ drop 1 (l ++ a ∷ [])
unfolding push
push_full a [] h = absurd (omega arith)
push_full a (b ∷ l) h = ground (arith, length-append l (a ∷ []))

push-latest :
    (a : Alert) (h : List Alert) → push a (latest max_alerts h) ≡ latest max_alerts (h ++ a ∷ [])
push-latest a h = elim (Bool-cases (ltb (length h) max_alerts)) [
  | inl short ↦
      let none_gone : length h - max_alerts ≡ 0 = ground arith in
      let none_gone' : length (h ++ a ∷ []) - max_alerts ≡ 0 =
        ground (arith, length-append h (a ∷ [])) in
      rw (none_gone, none_gone') (push_short a h (ground arith))
  | inr long ↦
      let k = length h - max_alerts in
      let fits : k ≤ length h = omega arith in
      let gone : length (h ++ a ∷ []) - max_alerts ≡ suc k =
        ground (arith, length-append h (a ∷ [])) in
      rw gone (
        push_full a (drop k h) (ground (arith, length-drop k h))
        ∙ ap (drop 1) (sym (drop-append k h (a ∷ []) fits))
        ∙ drop-suc k (h ++ a ∷ []))
]

push_all-latest :
    (new h : List Alert) → push_all new (latest max_alerts h) ≡ latest max_alerts (h ++ new)
unfolding push_all
push_all-latest [] h = rw append-nil
push_all-latest (a ∷ new) h =
    rw (push-latest a h)
      (push_all-latest new (h ++ a ∷ []) ∙ ap (latest max_alerts) (append_assoc h (a ∷ []) new))

from_start : (n : ℕ) (l : List Alert) → drop (start_index (pos n) l) l ≡ latest n l
unfolding start_index ltb_ℤ ◌-ℤ◌
from_start n l = ground arith

-- However many alerts were added, the manager holds the latest 500 of them in order, and
-- get_alerts_json with a limit of n prints the latest n of those.
pub get_alerts-push_all :
    (n : ℕ) (history : List Alert)
    → (push_all history [] ≡ latest max_alerts history)
      × (length (push_all history []) ≤ max_alerts)
      × (get_alerts (pos n) (push_all history [])
          ≡ map alert_row (latest n (latest max_alerts history)))
unfolding get_alerts
get_alerts-push_all n history =
    let all : push_all history [] ≡ latest max_alerts history = push_all-latest history [] in
    (
      all,
      rw all (omega (arith, length-drop (length history - max_alerts) history)),
      rw all (ap (map alert_row) (from_start n _)),
    )

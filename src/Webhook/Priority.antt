-- ===== src/Webhook/Priority.antt =====
-- include/webhook/signal_types.hpp: calc_priority.
pub mod Tiers
use tv_webhook_trader.Shared.{
  ℕ, ◌==◌, ◌||◌, Bool, true, false, if◌then◌else◌, List, [], ◌∷◌, Option, none, some, Text, codes,
  back, drop_last_n, ℤ, pos, ◌*ℤ◌, leb_ℤ,
}
use tv_webhook_trader.Shared.Decimal.{stoi}

unfoldable pub minutes_priority : ℤ → ℤ
minutes_priority m =
    if leb_ℤ (pos 60) m
    then pos 3
    else if leb_ℤ (pos 15) m
    then pos 2
    else if leb_ℤ (pos 5) m
    then pos 1
    else pos 0

abbrev scaled : Option ℤ → ℤ → ℤ
scaled none k = pos 0
scaled (some m) k = minutes_priority (m *ℤ k)

-- The product is the exact one: for 2^31 minutes and more the source's `int` overflows.
unfoldable pub calc_priority : Text → ℤ
calc_priority [] = pos 0
calc_priority (c ∷ s) =
    let tf = c ∷ s in
    let last = back tf in
    if last == b'h' || last == b'H'
    then scaled (stoi (drop_last_n 1 tf)) (pos 60)
    else if last == b'd' || last == b'D'
    then scaled (stoi (drop_last_n 1 tf)) (pos 1440)
    else scaled (stoi tf) (pos 1)

-- ===== src/Shared/Sets.antt =====
-- `std::unordered_set<std::string>` as a list of texts with no text twice.
use mathlib.Core.Path.{◌≡◌}
use mathlib.Core.Bool.{◌||◌}
use mathlib.Core.List.{List, [], ◌∷◌}
use native.Mathlib.Omega.{arith}
use tv_webhook_trader.Shared.Tests.{if◌then◌else◌}
use tv_webhook_trader.Shared.Bytes.{Text, text_eq, text_eq_iff, contains}

-- s.insert(k)
unfoldable pub put : Text → List Text → List Text
put k s = if contains s k then s else k ∷ s

-- s.erase(k)
unfoldable pub take_out : Text → List Text → List Text
take_out k [] = []
take_out k (j ∷ s) = if text_eq j k then s else j ∷ take_out k s

pub contains-put :
    (k j : Text) (s : List Text) → contains (put k s) j ≡ (text_eq k j || contains s j)
unfolding put contains
contains-put k j s = ground (arith, text_eq_iff k j)

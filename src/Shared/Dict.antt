-- ===== src/Shared/Dict.antt =====
-- `std::unordered_map<std::string, V>` as an association list. The order of the list stands for
-- the container's order of iteration, which the standard leaves open: a theorem for every list is a
-- theorem for every such order.
use Prim.Native.Nat.{◌+◌}
use mathlib.Core.Path.{◌≡◌, refl, sym, subst}
use mathlib.Core.Logic.{inl, inr}
use mathlib.Core.Bool.{Bool, true, false}
use mathlib.Core.Option.{Option, none, some}
use mathlib.Core.List.{List, [], ◌∷◌}
use native.Mathlib.Omega.{arith}
use tv_webhook_trader.Shared.Tests.{if◌then◌else◌, Bool-cases}
use tv_webhook_trader.Shared.Lists.{length, All, All-imp}
use tv_webhook_trader.Shared.Bytes.{Text, text_eq, text_eq_iff, text_eq_refl}

module _ {ℓ} {V : Type ℓ} where
  unfoldable pub lookup : Text → List (Text × V) → Option V
  lookup k [] = none
  lookup k ((j, v) ∷ m) = if text_eq j k then some v else lookup k m

  -- m.find(k) != m.end()
  unfoldable pub has_key : Text → List (Text × V) → Bool
  has_key k [] = false
  has_key k ((j, v) ∷ m) = if text_eq j k then true else has_key k m

  -- m[k] = v
  unfoldable pub insert : Text → V → List (Text × V) → List (Text × V)
  insert k v [] = (k, v) ∷ []
  insert k v ((j, w) ∷ m) = if text_eq j k then (j, v) ∷ m else (j, w) ∷ insert k v m

  -- m.erase(k)
  unfoldable pub erase : Text → List (Text × V) → List (Text × V)
  erase k [] = []
  erase k ((j, w) ∷ m) = if text_eq j k then m else (j, w) ∷ erase k m

  -- No key stands twice.
  abbrev pub Fresh : Text → List (Text × V) → Type 0
  Fresh k m = has_key k m ≡ false

  abbrev pub HasUniqueKeys : List (Text × V) → Type 0
  HasUniqueKeys [] = Unit
  HasUniqueKeys ((j, v) ∷ m) = Fresh j m × HasUniqueKeys m

  pub lookup-insert :
      (k j : Text) (v : V) (m : List (Text × V))
      → lookup j (insert k v m) ≡ (if text_eq k j then some v else lookup j m)
  unfolding lookup insert
  lookup-insert k j v [] = refl
  lookup-insert k j v ((i, w) ∷ m) =
      ground (arith, text_eq_iff k j, text_eq_iff i k, text_eq_iff i j, lookup-insert k j v m)

  pub has_key-insert :
      (k j : Text) (v : V) (m : List (Text × V))
      → has_key j (insert k v m) ≡ (if text_eq k j then true else has_key j m)
  unfolding has_key insert
  has_key-insert k j v [] = refl
  has_key-insert k j v ((i, w) ∷ m) =
      ground (arith, text_eq_iff k j, text_eq_iff i k, text_eq_iff i j, has_key-insert k j v m)

  pub lookup-none : (k : Text) (m : List (Text × V)) → Fresh k m → lookup k m ≡ none
  unfolding lookup has_key
  lookup-none k [] h = refl
  lookup-none k ((i, w) ∷ m) h = ground (arith, lookup-none k m)

  pub lookup-erase :
      (k j : Text) (m : List (Text × V))
      → HasUniqueKeys m
      → lookup j (erase k m) ≡ (if text_eq k j then none else lookup j m)
  unfolding lookup erase
  lookup-erase k j [] u = ground arith
  lookup-erase k j ((i, w) ∷ m) u = ground (
    arith,
    text_eq_iff k j,
    text_eq_iff i k,
    text_eq_iff i j,
    lookup-erase k j m u.1,
    lookup-none i m u.0,
  )

  pub has_key-erase :
      (k j : Text) (m : List (Text × V))
      → HasUniqueKeys m
      → has_key j (erase k m) ≡ (if text_eq k j then false else has_key j m)
  unfolding has_key erase
  has_key-erase k j [] u = ground arith
  has_key-erase k j ((i, w) ∷ m) u =
      ground (arith, text_eq_iff k j, text_eq_iff i k, text_eq_iff i j, has_key-erase k j m u.1)

  pub insert-HasUniqueKeys :
      (k : Text) (v : V) (m : List (Text × V)) → HasUniqueKeys m → HasUniqueKeys (insert k v m)
  unfolding insert has_key
  insert-HasUniqueKeys k v [] u = (refl, tt)
  insert-HasUniqueKeys k v ((i, w) ∷ m) u = ground (
    arith,
    insert-HasUniqueKeys k v m u.1,
    has_key-insert k i v m,
    text_eq_iff k i,
    text_eq_iff i k,
  )

  pub erase-HasUniqueKeys :
      (k : Text) (m : List (Text × V)) → HasUniqueKeys m → HasUniqueKeys (erase k m)
  unfolding erase
  erase-HasUniqueKeys k [] u = tt
  erase-HasUniqueKeys k ((i, w) ∷ m) u =
      ground (arith, erase-HasUniqueKeys k m u.1, has_key-erase k i m u.1)

  pub length-erase :
      (k : Text) (m : List (Text × V))
      → length m ≡ length (erase k m) + (if has_key k m then 1 else 0)
  unfolding erase has_key
  length-erase k [] = omega arith
  length-erase k ((i, w) ∷ m) = ground (arith, length-erase k m)

  pub length-insert :
      (k : Text) (v : V) (m : List (Text × V))
      → length (insert k v m) ≡ length m + (if has_key k m then 0 else 1)
  unfolding insert has_key
  length-insert k v [] = omega arith
  length-insert k v ((i, w) ∷ m) = ground (arith, length-insert k v m)

  pub erase-absent : (k : Text) (m : List (Text × V)) → Fresh k m → erase k m ≡ m
  unfolding erase has_key
  erase-absent k [] h = refl
  erase-absent k ((i, w) ∷ m) h = ground (arith, erase-absent k m)

  pub lookup-has_key :
      (k : Text) (m : List (Text × V))
      → (lookup k m ≡ none → has_key k m ≡ false)
        × ((v : V) → lookup k m ≡ some v → has_key k m ≡ true)
  unfolding lookup has_key
  lookup-has_key k [] = (λ h. refl, λ v h. cc)
  lookup-has_key k ((i, w) ∷ m) = ground (arith, lookup-has_key k m)

-- What all entries have.
pub lookup-All {ℓ κ} :
    {V : Type ℓ} (P : Text × V → Type κ) (k : Text) (v : V) (m : List (Text × V))
    → All P m
    → lookup k m ≡ some v
    → P (k, v)
unfolding lookup
lookup-All P k v [] h e = absurd (ground arith)
lookup-All P k v ((j, w) ∷ m) h e = elim (Bool-cases (text_eq j k)) [
  | inl own ↦
      let e' : some w ≡ some v = rw own at e in
      subst (λ t. P (t, v)) ((text_eq_iff j k).0 own) (subst (λ x. P (j, x)) (cc) h.0)
  | inr other ↦ lookup-All P k v m h.1 (rw other at e)
]

pub insert-All {ℓ κ} :
    {V : Type ℓ} (P : Text × V → Type κ) (k : Text) (v : V) (m : List (Text × V))
    → P (k, v)
    → All P m
    → All P (insert k v m)
unfolding insert
insert-All P k v [] p h = (p, tt)
insert-All P k v ((j, w) ∷ m) p h = elim (Bool-cases (text_eq j k)) [
  | inl own ↦ rw own (subst (λ t. P (t, v)) (sym ((text_eq_iff j k).0 own)) p, h.1)
  | inr other ↦ rw other (h.0, insert-All P k v m p h.1)
]

pub own_keys {ℓ} : {V : Type ℓ} (m : List (Text × V)) → All (λ e. has_key e.0 m ≡ true) m
unfolding has_key
own_keys [] = tt
own_keys ((j, w) ∷ m) = (
  rw (text_eq_refl j) refl,
  All-imp (λ e. has_key e.0 m ≡ true) (λ e. has_key e.0 ((j, w) ∷ m) ≡ true) m
      (λ e h. ground (arith, h)) (own_keys m),
)

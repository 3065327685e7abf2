-- ===== src/Shared/Group.antt =====
-- The loop that the program uses for all its reports: a map of running figures by a text of each
-- element.
use mathlib.Core.Path.{◌≡◌, refl, ap, sym, ◌∙◌}
use mathlib.Core.Logic.{inl, inr}
use mathlib.Core.Bool.{Bool, false}
use mathlib.Core.Option.{Option, none, some}
use mathlib.Core.List.{List, [], ◌∷◌}
use native.Mathlib.Omega.{arith}
use tv_webhook_trader.Shared.Tests.{if◌then◌else◌, Bool-cases}
use tv_webhook_trader.Shared.Lists.{select, All, All-imp}
use tv_webhook_trader.Shared.Bytes.{Text, text_eq, text_eq_iff, text_eq_refl}
use tv_webhook_trader.Shared.Dict.{
  lookup, insert, has_key, HasUniqueKeys, lookup-insert, insert-HasUniqueKeys, lookup-has_key,
}

-- What an entry holds, made anew if it is not there.
abbrev pub get_or {ℓ} : {V : Type ℓ} → V → Option V → V
get_or new none = new
get_or new (some v) = v

abbrev pub has_text {ℓ} : {A : Type ℓ} → (A → Text) → Text → A → Bool
has_text key k x = text_eq (key x) k

module _ {κ} {V : Type κ} where
  abbrev IsFound : List (Text × V) → List (Text × V) → Type κ
  IsFound m = All (λ kv. lookup kv.0 m ≡ some kv.1)

  IsFound-behind :
      (i : Text) (w : V) (m es : List (Text × V))
      → has_key i m ≡ false
      → IsFound m es
      → IsFound ((i, w) ∷ m) es
  unfolding lookup
  IsFound-behind i w m es h =
      All-imp _ _ es λ kv e. ground (arith, text_eq_iff i kv.0, (lookup-has_key kv.0 m).1 kv.1 e)

  -- Where no key stands twice, each entry is the one that is found under its key.
  all-IsFound : (m : List (Text × V)) → HasUniqueKeys m → IsFound m m
  unfolding lookup
  all-IsFound [] u = tt
  all-IsFound ((i, w) ∷ m) u =
      (ground (arith, text_eq_refl i), IsFound-behind i w m m u.0 (all-IsFound m u.1))

  insert-keys :
      (P : Text → Type 0) (k : Text) (v : V) (m : List (Text × V))
      → P k
      → All (λ kv. P kv.0) m
      → All (λ kv. P kv.0) (insert k v m)
  unfolding insert
  insert-keys P k v [] p h = (p, tt)
  insert-keys P k v ((j, w) ∷ m) p h = elim (Bool-cases (text_eq j k)) [
    | inl e ↦ rw e (h.0, h.1)
    | inr e ↦ rw e (h.0, insert-keys P k v m p h.1)
  ]

module _ {ℓ κ} {A : Type ℓ} {V : Type κ} where
  unfoldable pub fold : (A → V → V) → V → List A → V
  fold add v [] = v
  fold add v (x ∷ xs) = fold add (add x v) xs

  unfoldable pub group : (A → Text) → (A → V → V) → V → List (Text × V) → List A → List (Text × V)
  group key add new m [] = m
  group key add new m (x ∷ xs) =
      group key add new (insert (key x) (add x (get_or new (lookup (key x) m))) m) xs

  inserted :
      (key : A → Text) (add : A → V → V) (new : V) (m : List (Text × V)) (x : A) (k : Text)
      → get_or new (lookup k (insert (key x) (add x (get_or new (lookup (key x) m))) m))
        ≡ (if has_text key k x then add x (get_or new (lookup k m)) else get_or new (lookup k m))
  inserted key add new m x k =
      let v = add x (get_or new (lookup (key x) m)) in
      let found = lookup-insert (key x) k v m in
      elim (Bool-cases (has_text key k x)) [
        | inl own ↦
            let same : key x ≡ k = (text_eq_iff (key x) k).0 own in
            rw (found, own) (ap (λ j. add x (get_or new (lookup j m))) same)
        | inr other ↦ rw (found, other)
      ]

  -- An entry holds the figures of its own elements, in order, on top of what it held.
  pub group_lem :
      (key : A → Text) (add : A → V → V) (new : V) (m : List (Text × V)) (xs : List A) (k : Text)
      → get_or new (lookup k (group key add new m xs))
        ≡ fold add (get_or new (lookup k m)) (select (has_text key k) xs)
  unfolding group fold select
  group_lem key add new m [] k = refl
  group_lem key add new m (x ∷ xs) k = ground (
    arith,
    inserted key add new m x k,
    group_lem key add new (insert (key x) (add x (get_or new (lookup (key x) m))) m) xs k,
  )

  pub group-HasUniqueKeys :
      (key : A → Text) (add : A → V → V) (new : V) (m : List (Text × V)) (xs : List A)
      → HasUniqueKeys m
      → HasUniqueKeys (group key add new m xs)
  unfolding group
  group-HasUniqueKeys key add new m [] u = u
  group-HasUniqueKeys key add new m (x ∷ xs) u =
      let m' = insert (key x) (add x (get_or new (lookup (key x) m))) m in
      group-HasUniqueKeys key add new m' xs
        (insert-HasUniqueKeys (key x) (add x (get_or new (lookup (key x) m))) m u)

  -- The entries of the whole loop hold the figures of their own elements.
  pub group-entries :
      (key : A → Text) (add : A → V → V) (new : V) (xs : List A)
      → All (λ kv. kv.1 ≡ fold add new (select (has_text key kv.0) xs)) (group key add new [] xs)
  unfolding lookup
  group-entries key add new xs =
      let g = group key add new [] xs in
      All-imp _ _ g (λ kv e. ap (get_or new) (sym e) ∙ group_lem key add new [] xs kv.0)
        (all-IsFound g (group-HasUniqueKeys key add new [] xs tt))

  -- What all texts of elements have, all keys have.
  pub group-keys :
      (P : Text → Type 0) (key : A → Text) (add : A → V → V) (new : V) (m : List (Text × V))
      (xs : List A)
      → ((x : A) → P (key x))
      → All (λ kv. P kv.0) m
      → All (λ kv. P kv.0) (group key add new m xs)
  unfolding group
  group-keys P key add new m [] f h = h
  group-keys P key add new m (x ∷ xs) f h =
      let v = add x (get_or new (lookup (key x) m)) in
      group-keys P key add new (insert (key x) v m) xs f (insert-keys P (key x) v m (f x) h)

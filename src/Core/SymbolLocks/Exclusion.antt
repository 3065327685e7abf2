-- ===== src/Core/SymbolLocks/Exclusion.antt =====
-- Mutual exclusion: threads that lock a symbol and let a guard unlock it.
use tv_webhook_trader.Shared.{
  ℕ, ◌≡◌, refl, Bool, true, false, ◌||◌, List, [], ◌∷◌, Option, none, some, Text, contains, text_eq,
  text_eq_iff, if◌then◌else◌, arith, map, ◌==◌, ◌&&◌,
}
use tv_webhook_trader.Core.SignalQueue.{Wake, notified, timed_out}
use tv_webhook_trader.Core.SymbolLocks.{
  Locked, try_lock, wait_lock_enter, wait_lock_round, guard_end, remove,
}

-- A thread that was told that it has a symbol's lock.
abbrev pub Holding : Type 0
Holding = ℕ × Text

abbrev symbols : List Holding → Locked
symbols = map (λ h. h.1)

unfoldable pub holds : List Holding → ℕ → Text → Bool
holds [] t s = false
holds ((u, r) ∷ hs) t s = (u == t && text_eq r s) || holds hs t s

-- The first entry of a symbol goes.
unfoldable pub drop : Text → List Holding → List Holding
drop s [] = []
drop s ((u, r) ∷ hs) = if text_eq r s then hs else (u, r) ∷ drop s hs

pub data Event : Type 0 where
  tries : ℕ → Text → Event
  enters : ℕ → Text → Event
  wakes : ℕ → Text → Wake → Event
  ends : ℕ → Text → Event

pub record System : Type 0 where
  pub locked : Locked
  pub holders : List Holding

abbrev granted : Option Bool → Bool
granted none = false
granted (some b) = b

abbrev pub gain : ℕ → Text → Locked → Bool → System → System
gain t s l true w = record { locked = l; holders = (t, s) ∷ w.holders }
gain t s l false w = record w { locked = l }

-- A guard ends only in the thread that has the lock.
unfoldable pub step : System → Event → System
step w (tries t s) = let r = try_lock s w.locked in gain t s r.0 r.1 w
step w (enters t s) = let r = wait_lock_enter s w.locked in gain t s r.0 (granted r.1) w
step w (wakes t s k) = let r = wait_lock_round s k w.locked in gain t s r.0 (granted r.1) w
step w (ends t s) =
    if holds w.holders t s
    then record { locked = guard_end s w.locked; holders = drop s w.holders }
    else w

unfoldable pub run : System → List Event → System
run w [] = w
run w (e ∷ es) = run (step w e) es

abbrev pub start : System
start = record { locked = []; holders = [] }

abbrev AreDistinct : List Text → Type 0
AreDistinct [] = Unit
AreDistinct (s ∷ ss) = (contains ss s ≡ false) × AreDistinct ss

record IsExclusive (w : System) : Type 0 where
  agree : w.locked ≡ symbols w.holders
  distinct : AreDistinct w.locked

remove-symbols : (s : Text) (hs : List Holding) → remove s (symbols hs) ≡ symbols (drop s hs)
unfolding remove drop
remove-symbols s [] = refl
remove-symbols s ((u, r) ∷ hs) = ground (arith, remove-symbols s hs)

contains-remove : (s t : Text) (l : Locked) → contains l t ≡ false → contains (remove s l) t ≡ false
unfolding remove contains
contains-remove s t [] h = refl
contains-remove s t (r ∷ l) h = ground (arith, contains-remove s t l)

remove-AreDistinct : (s : Text) (l : Locked) → AreDistinct l → AreDistinct (remove s l)
unfolding remove
remove-AreDistinct s [] h = tt
remove-AreDistinct s (r ∷ l) h =
    ground (arith, remove-AreDistinct s l h.1, contains-remove s r l h.0)

step-IsExclusive : (w : System) (e : Event) → IsExclusive w → IsExclusive (step w e)
unfolding step try_lock wait_lock_enter wait_lock_round guard_end
step-IsExclusive w (tries t s) v = ground arith
step-IsExclusive w (enters t s) v = ground arith
step-IsExclusive w (wakes t s notified) v = ground arith
step-IsExclusive w (wakes t s timed_out) v = ground arith
step-IsExclusive w (ends t s) v =
    ground (arith, remove-AreDistinct s w.locked v.distinct, remove-symbols s w.holders)

run-IsExclusive : (w : System) (es : List Event) → IsExclusive w → IsExclusive (run w es)
unfolding run
run-IsExclusive w [] v = v
run-IsExclusive w (e ∷ es) v = run-IsExclusive (step w e) es (step-IsExclusive w e v)

contains_of_holds :
    (hs : List Holding) (t : ℕ) (s : Text) → holds hs t s ≡ true → contains (symbols hs) s ≡ true
unfolding holds contains
contains_of_holds [] t s h = cc
contains_of_holds ((u, r) ∷ hs) t s h = ground (arith, contains_of_holds hs t s)

holder_unique :
    (hs : List Holding) (t u : ℕ) (s : Text)
    → AreDistinct (symbols hs)
    → holds hs t s ≡ true
    → holds hs u s ≡ true
    → t ≡ u
unfolding holds
holder_unique [] t u s d h k = cc
holder_unique ((v, r) ∷ hs) t u s d h k = ground (
  arith,
  holder_unique hs t u s d.1,
  contains_of_holds hs t s,
  contains_of_holds hs u s,
  text_eq_iff r s,
)

-- In every interleaving of calls from any number of threads, where a lock is given back only by the
-- thread that has it, two threads that have the lock of one symbol are one thread.
pub holders_exclusive :
    (es : List Event) (t u : ℕ) (s : Text)
    → holds (run start es).holders t s ≡ true
    → holds (run start es).holders u s ≡ true
    → t ≡ u
holders_exclusive es t u s h k =
    let v = run-IsExclusive start es (record { agree = refl; distinct = tt }) in
    holder_unique (run start es).holders t u s (rw v.agree at v.distinct) h k

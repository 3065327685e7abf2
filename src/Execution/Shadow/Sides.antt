-- ===== src/Execution/Shadow/Sides.antt =====
-- The paper positions of one symbol and timeframe: never on both sides.
use tv_webhook_trader.Shared.{
  ℕ, ◌≡◌, ◌≢◌, refl, ap, sym, Bool, true, false, not, ◌&&◌, [], ◌∷◌, ◌++◌, Option, none, some, Text,
  codes, text_eq, text_eq_iff, text_eq_refl, back, lookup, insert, erase, has_key, HasUniqueKeys,
  has_key-insert, has_key-erase, erase-absent, lookup-has_key, insert-HasUniqueKeys,
  erase-HasUniqueKeys, arith, Bool-cases, Option-cases, inl, inr,
}
use mathlib.Core.List.{append_assoc, append_cancel_right}
use tv_webhook_trader.Risk.Position.{same_direction}
use tv_webhook_trader.Shared.Double.{Double}
use tv_webhook_trader.Webhook.Signal.{WebhookSignal, SignalType, entry, tp, sl, re_entry, unknown}
use tv_webhook_trader.Execution.Shadow.{
  VirtualPosition, VirtualBook, ShadowTracker, make_key, side_text, is_long_signal, timeframe_of,
  note_live_equiv, save_state, maybe_save, close_position, close_opposite, open_position,
  virtual_position, close_entry, track_entry, track_exit, track_type, track,
}

-- The key of a position, from what stands in front of its side.
abbrev pub side_key : Text → Bool → Text
side_key p long = p ++ b':' ∷ side_text long

make_key-side_key :
    (symbol tf : Text) (long : Bool)
    → make_key symbol tf (side_text long) ≡ side_key (symbol ++ b':' ∷ tf) long
unfolding make_key
make_key-side_key symbol tf long = sym (append_assoc symbol (b':' ∷ tf) (b':' ∷ side_text long))

-- A text without its last n bytes, by recursion: what ends in the same way begins in the same way.
back-append-cons : (p : Text) (c : ℕ) (s : Text) → back (p ++ c ∷ s) ≡ back (c ∷ s)
back-append-cons [] c s = refl
back-append-cons (x ∷ []) c s = refl
back-append-cons (x ∷ y ∷ p) c s = back-append-cons (y ∷ p) c s

sides_differ : (p q : Text) → side_key p true ≢ side_key q false
sides_differ p q e =
    let long = back-append-cons p b':' (codes "long") in
    let short = back-append-cons q b':' (codes "short") in ground (arith, long, short, ap back e)

side_key-injective : (p q : Text) (long : Bool) → side_key p long ≡ side_key q long → p ≡ q
side_key-injective p q long e = append_cancel_right p q (b':' ∷ side_text long) e

text_eq-side_key :
    (p q : Text) (a b : Bool)
    → text_eq (side_key p a) (side_key q b) ≡ (text_eq p q && same_direction a b)
text_eq-side_key p q true true = ground (
  arith,
  text_eq_iff (side_key p true) (side_key q true),
  text_eq_iff p q,
  side_key-injective p q true,
)
text_eq-side_key p q false false = ground (
  arith,
  text_eq_iff (side_key p false) (side_key q false),
  text_eq_iff p q,
  side_key-injective p q false,
)
text_eq-side_key p q true false =
    ground (arith, text_eq_iff (side_key p true) (side_key q false), sides_differ p q)
text_eq-side_key p q false true =
    ground (arith, text_eq_iff (side_key p false) (side_key q true), sides_differ q p)

module _ {F : Type 0} where
  -- For no symbol and timeframe both keys are there.
  abbrev pub IsOneSided : VirtualBook F → Type 0
  IsOneSided ps =
      (p : Text) → (has_key (side_key p true) ps && has_key (side_key p false) ps) ≡ false

  -- No key stands twice, and no symbol is held on both sides in one timeframe.
  pub record IsOrderly (ps : VirtualBook F) : Type 0 where
    pub unique : HasUniqueKeys ps
    pub one_sided : IsOneSided ps

  erase-IsOrderly : (k : Text) (ps : VirtualBook F) → IsOrderly ps → IsOrderly (erase k ps)
  erase-IsOrderly k ps v = record {
    unique = erase-HasUniqueKeys k ps v.unique;
    one_sided = λ p. ground (
      arith,
      has_key-erase k (side_key p true) ps v.unique,
      has_key-erase k (side_key p false) ps v.unique,
      v.one_sided p,
    );
  }

  insert-IsOrderly :
      (p : Text) (long : Bool) (vp : VirtualPosition F) (ps : VirtualBook F)
      → IsOrderly ps
      → has_key (side_key p (not long)) ps ≡ false
      → IsOrderly (insert (side_key p long) vp ps)
  insert-IsOrderly p long vp ps v free = record {
    unique = insert-HasUniqueKeys (side_key p long) vp ps v.unique;
    one_sided = λ q. both long q free;
  }
    where
      both :
          (a : Bool) (q : Text)
          → has_key (side_key p (not a)) ps ≡ false
          → (has_key (side_key q true) (insert (side_key p a) vp ps)
              && has_key (side_key q false) (insert (side_key p a) vp ps))
            ≡ false
      both true q h = ground (
        arith,
        has_key-insert (side_key p true) (side_key q true) vp ps,
        has_key-insert (side_key p true) (side_key q false) vp ps,
        text_eq-side_key p q true true,
        text_eq-side_key p q true false,
        text_eq_iff p q,
        v.one_sided q,
      )
      both false q h = ground (
        arith,
        has_key-insert (side_key p false) (side_key q true) vp ps,
        has_key-insert (side_key p false) (side_key q false) vp ps,
        text_eq-side_key p q false true,
        text_eq-side_key p q false false,
        text_eq_iff p q,
        v.one_sided q,
      )

module _ {F : Type 0} ⦃d : Double F⦄ where
  maybe_save-positions : (t : ShadowTracker F) → (maybe_save t).positions ≡ t.positions
  unfolding maybe_save save_state
  maybe_save-positions t = ground arith

  pub close_position-positions :
      (key : Text) (vp : VirtualPosition F) (exit : F) (reason : Text) (t : ShadowTracker F)
      → (close_position key vp exit reason t).positions ≡ erase key t.positions
  unfolding close_position note_live_equiv maybe_save save_state
  close_position-positions key vp exit reason t = ground arith

  pub close_opposite-positions :
      (key : Text) (exit : F) (t : ShadowTracker F)
      → (close_opposite key exit t).positions ≡ erase key t.positions
  unfolding close_opposite
  close_opposite-positions key exit t = elim (Option-cases (lookup key t.positions)) [
    | inl e ↦ rw e (sym (erase-absent key t.positions ((lookup-has_key key t.positions).0 e)))
    | inr (vp, e) ↦ rw e (close_position-positions key vp exit (codes "REVERSAL") t)
  ]

  open_position-positions :
      (key : Text) (vp : VirtualPosition F) (t : ShadowTracker F)
      → (open_position key vp t).positions ≡ insert key vp t.positions
  unfolding open_position maybe_save save_state
  open_position-positions key vp t = ground arith

  track_entry-IsOrderly :
      (now : ℕ) (sig : WebhookSignal F) (t : ShadowTracker F)
      → IsOrderly t.positions
      → IsOrderly (track_entry now sig t).positions
  unfolding track_entry
  track_entry-IsOrderly now sig t v =
      let long = is_long_signal sig.sig_type sig in
      let p = sig.symbol ++ b':' ∷ timeframe_of sig in
      let key = make_key sig.symbol (timeframe_of sig) (side_text long) in
      let other = make_key sig.symbol (timeframe_of sig) (side_text (not long)) in
      let vp = virtual_position now sig long in
      let turned = close_opposite other sig.price t in
      let key_is = make_key-side_key sig.symbol (timeframe_of sig) long in
      let other_is = make_key-side_key sig.symbol (timeframe_of sig) (not long) in
      let erased = close_opposite-positions other sig.price t in
      elim (Bool-cases (has_key key t.positions)) [
        | inl held ↦ rw held v
        | inr free ↦
            rw (free, open_position-positions key vp turned, erased, key_is, other_is)
              (insert-IsOrderly p long vp (erase (side_key p (not long)) t.positions)
                (erase-IsOrderly (side_key p (not long)) t.positions v)
                (ground (
                  arith,
                  has_key-erase (side_key p (not long)) (side_key p (not long)) t.positions
                      v.unique,
                  text_eq_refl (side_key p (not long)),
                )))
      ]

  close_entry-IsOrderly :
      (exit : F) (reason : Text) (o : Option (Text × VirtualPosition F)) (t : ShadowTracker F)
      → IsOrderly t.positions
      → IsOrderly (close_entry exit reason o t).positions
  close_entry-IsOrderly exit reason none t v = v
  close_entry-IsOrderly exit reason (some (k, vp)) t v =
      rw (close_position-positions k vp exit reason t) (erase-IsOrderly k t.positions v)

  track_type-IsOrderly :
      (ty : SignalType) (now : ℕ) (sig : WebhookSignal F) (t : ShadowTracker F)
      → IsOrderly t.positions
      → IsOrderly (track_type ty now sig t).positions
  unfolding track_type track_exit
  track_type-IsOrderly entry now sig t v = track_entry-IsOrderly now sig t v
  track_type-IsOrderly re_entry now sig t v = track_entry-IsOrderly now sig t v
  track_type-IsOrderly tp now sig t v = close_entry-IsOrderly _ _ _ t v
  track_type-IsOrderly sl now sig t v = close_entry-IsOrderly _ _ _ t v
  track_type-IsOrderly unknown now sig t v = v

  -- Whatever the signal is, the paper positions keep their keys single and no symbol is held on both
  -- sides in one timeframe.
  pub track-IsOrderly :
      (now : ℕ) (sig : WebhookSignal F) (t : ShadowTracker F)
      → IsOrderly t.positions
      → IsOrderly (track now sig t).positions
  unfolding track
  track-IsOrderly now sig t v = ground (arith, track_type-IsOrderly sig.sig_type now sig t v)

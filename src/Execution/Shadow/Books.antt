-- ===== src/Execution/Shadow/Books.antt =====
-- The figures of the shadow tracker, as each of its steps leaves them.
use tv_webhook_trader.Shared.{
  ℕ, ◌+◌, ◌≤◌, ◌≡◌, refl, ap, ◌∙◌, true, false, not, if◌then◌else◌, List, [], ◌∷◌, ◌++◌, Option,
  none, some, Text, codes, text_eq, text_eq_refl, length, length-append, lookup, has_key,
  HasUniqueKeys, is_empty, length-insert, length-erase, has_key-erase, lookup-has_key, cap_to,
  cap_to-latest, latest, latest-step, arith, Bool-cases, Option-cases, inl, inr,
}
use tv_webhook_trader.Shared.Double.{Double, nought}
use tv_webhook_trader.Webhook.Signal.{WebhookSignal, SignalType, entry, tp, sl, re_entry, unknown}
use tv_webhook_trader.Execution.Trades.{TradeRecord, count_wins, sum_pnl}
use tv_webhook_trader.Execution.Shadow.{
  VirtualPosition, VirtualBook, ShadowTracker, make_key, side_text, is_long_signal, timeframe_of,
  find_by_symbol_side, shadow_trade, note_live_equiv, with_result, save_state, maybe_save,
  close_position, close_opposite, open_position, virtual_position, close_entry, or_search,
  track_entry, track_exit, track_type, track,
}
use tv_webhook_trader.Execution.Shadow.Sides.{close_opposite-positions}

module _ {F : Type 0} where
  found-has_key :
      (symbol side : Text) (ps : VirtualBook F) (k : Text) (p : VirtualPosition F)
      → find_by_symbol_side symbol side ps ≡ some (k, p)
      → has_key k ps ≡ true
  unfolding find_by_symbol_side has_key
  found-has_key symbol side [] k p e = cc
  found-has_key symbol side ((j, q) ∷ ps) k p e =
      ground (arith, found-has_key symbol side ps k p, text_eq_refl k)

module _ {F : Type 0} ⦃d : Double F⦄ where
  pub count_wins-append :
      (ts : List (TradeRecord F)) (t : TradeRecord F)
      → count_wins (ts ++ t ∷ []) ≡ count_wins ts + (if d.lt nought t.pnl then 1 else 0)
  unfolding count_wins
  count_wins-append [] t = omega arith
  count_wins-append (s ∷ ts) t = omega (arith, count_wins-append ts t)

  sum_pnl-append :
      (total : F) (ts : List (TradeRecord F)) (t : TradeRecord F)
      → sum_pnl total (ts ++ t ∷ []) ≡ d.add (sum_pnl total ts) t.pnl
  unfolding sum_pnl
  sum_pnl-append total [] t = refl
  sum_pnl-append total (s ∷ ts) t = sum_pnl-append (d.add total s.pnl) ts t

  pub record IsBooked (t : ShadowTracker F) : Type 0 where
    pub entries : t.total_entries ≡ t.total_closes + length t.positions
    pub results : t.wins + t.losses ≡ t.total_closes
    pub handed : length t.learned ≡ t.total_closes
    pub won : t.wins ≡ count_wins t.learned
    pub summed : t.total_pnl ≡ sum_pnl nought t.learned
    pub kept : t.trades ≡ latest 5000 t.learned
    pub live_results :
        t.live_equiv_stats.wins + t.live_equiv_stats.losses ≡ t.live_equiv_stats.total_closes
    pub live_fewer : t.live_equiv_stats.total_closes ≤ t.total_closes

  maybe_save-IsBooked : (t : ShadowTracker F) → IsBooked t → IsBooked (maybe_save t)
  unfolding maybe_save save_state
  maybe_save-IsBooked t v = ground arith

  -- The members before the position goes.
  closing-kept :
      (tr : TradeRecord F) (t : ShadowTracker F)
      → t.trades ≡ latest 5000 t.learned
      → cap_to 5000 (t.trades ++ tr ∷ []) ≡ latest 5000 (t.learned ++ tr ∷ [])
  closing-kept tr t e =
      cap_to-latest 5000 (t.trades ++ tr ∷ [])
      ∙ ap (λ l. latest 5000 (l ++ tr ∷ [])) e
      ∙ latest-step 5000 t.learned tr

  shadow_trade-net :
      (vp : VirtualPosition F) (exit : F) (reason : Text)
      → (shadow_trade vp exit reason).pnl ≡ (shadow_trade vp exit reason).net_pnl
  unfolding shadow_trade
  shadow_trade-net vp exit reason = refl

  close_position-IsBooked :
      (key : Text) (vp : VirtualPosition F) (exit : F) (reason : Text) (t : ShadowTracker F)
      → has_key key t.positions ≡ true
      → IsBooked t
      → IsBooked (close_position key vp exit reason t)
  unfolding close_position note_live_equiv with_result
  close_position-IsBooked key vp exit reason t h v =
      let tr = shadow_trade vp exit reason in
      let net = shadow_trade-net vp exit reason in
      maybe_save-IsBooked _ (record {
        entries = ground (arith, length-erase key t.positions, v.entries);
        results = ground (arith, v.results);
        handed = ground (arith, length-append t.learned (tr ∷ []), v.handed);
        won = ground (arith, count_wins-append t.learned tr, net, v.won);
        summed = ground (arith, sum_pnl-append nought t.learned tr, net, v.summed);
        kept = ground (arith, closing-kept tr t v.kept);
        live_results = ground (arith, v.live_results);
        live_fewer = ground (arith, v.live_fewer);
      })

  close_opposite-IsBooked :
      (key : Text) (exit : F) (t : ShadowTracker F)
      → IsBooked t
      → IsBooked (close_opposite key exit t)
  unfolding close_opposite
  close_opposite-IsBooked key exit t v = elim (Option-cases (lookup key t.positions)) [
    | inl e ↦ rw e v
    | inr (vp, e) ↦ rw e (
        close_position-IsBooked key vp exit (codes "REVERSAL") t
          ((lookup-has_key key t.positions).1 vp e) v)
  ]

  open_position-IsBooked :
      (key : Text) (vp : VirtualPosition F) (t : ShadowTracker F)
      → has_key key t.positions ≡ false
      → IsBooked t
      → IsBooked (open_position key vp t)
  unfolding open_position
  open_position-IsBooked key vp t h v = maybe_save-IsBooked _ (record {
    entries = ground (arith, length-insert key vp t.positions, v.entries);
    results = v.results;
    handed = v.handed;
    won = v.won;
    summed = v.summed;
    kept = v.kept;
    live_results = v.live_results;
    live_fewer = v.live_fewer;
  })

  -- Closing the other side leaves this side's key as it was.
  close_opposite-has_key :
      (key other : Text) (exit : F) (t : ShadowTracker F)
      → HasUniqueKeys t.positions
      → has_key key t.positions ≡ false
      → has_key key (close_opposite other exit t).positions ≡ false
  close_opposite-has_key key other exit t u h =
      rw (close_opposite-positions other exit t)
        (ground (arith, has_key-erase other key t.positions u))

  track_entry-IsBooked :
      (now : ℕ) (sig : WebhookSignal F) (t : ShadowTracker F)
      → HasUniqueKeys t.positions
      → IsBooked t
      → IsBooked (track_entry now sig t)
  unfolding track_entry
  track_entry-IsBooked now sig t u v =
      let long = is_long_signal sig.sig_type sig in
      let key = make_key sig.symbol (timeframe_of sig) (side_text long) in
      let other = make_key sig.symbol (timeframe_of sig) (side_text (not long)) in
      elim (Bool-cases (has_key key t.positions)) [
        | inl held ↦ rw held v
        | inr free ↦ rw free (
            open_position-IsBooked key (virtual_position now sig long)
              (close_opposite other sig.price t)
              (close_opposite-has_key key other sig.price t u free)
              (close_opposite-IsBooked other sig.price t v))
      ]

  -- What an exit signal finds is in the map.
  abbrev IsThere : Option (Text × VirtualPosition F) → VirtualBook F → Type 0
  IsThere none ps = Unit
  IsThere (some (k, p)) ps = has_key k ps ≡ true

  close_entry-IsBooked :
      (exit : F) (reason : Text) (o : Option (Text × VirtualPosition F)) (t : ShadowTracker F)
      → IsThere o t.positions
      → IsBooked t
      → IsBooked (close_entry exit reason o t)
  close_entry-IsBooked exit reason none t h v = v
  close_entry-IsBooked exit reason (some (k, p)) t h v =
      close_position-IsBooked k p exit reason t h v

  search-IsThere :
      (symbol side : Text) (ps : VirtualBook F) (o : Option (Text × VirtualPosition F))
      → find_by_symbol_side symbol side ps ≡ o
      → IsThere o ps
  search-IsThere symbol side ps none e = tt
  search-IsThere symbol side ps (some (k, p)) e = found-has_key symbol side ps k p e

  or_search-IsThere :
      (key symbol side : Text) (ps : VirtualBook F) (o : Option (VirtualPosition F))
      → lookup key ps ≡ o
      → IsThere (or_search key o (find_by_symbol_side symbol side ps)) ps
  or_search-IsThere key symbol side ps none e =
      search-IsThere symbol side ps (find_by_symbol_side symbol side ps) refl
  or_search-IsThere key symbol side ps (some p) e = (lookup-has_key key ps).1 p e

  track_exit-IsBooked :
      (reason : Text) (sig : WebhookSignal F) (t : ShadowTracker F)
      → IsBooked t
      → IsBooked (track_exit reason sig t)
  unfolding track_exit
  track_exit-IsBooked reason sig t v =
      close_entry-IsBooked _ _ _ t (or_search-IsThere _ _ _ t.positions _ refl) v

  track_type-IsBooked :
      (ty : SignalType) (now : ℕ) (sig : WebhookSignal F) (t : ShadowTracker F)
      → HasUniqueKeys t.positions
      → IsBooked t
      → IsBooked (track_type ty now sig t)
  unfolding track_type
  track_type-IsBooked entry now sig t u v = track_entry-IsBooked now sig t u v
  track_type-IsBooked re_entry now sig t u v = track_entry-IsBooked now sig t u v
  track_type-IsBooked tp now sig t u v = track_exit-IsBooked (codes "TP") sig t v
  track_type-IsBooked sl now sig t u v = track_exit-IsBooked (codes "SL") sig t v
  track_type-IsBooked unknown now sig t u v = v

  pub track-IsBooked :
      (now : ℕ) (sig : WebhookSignal F) (t : ShadowTracker F)
      → HasUniqueKeys t.positions
      → IsBooked t
      → IsBooked (track now sig t)
  unfolding track
  track-IsBooked now sig t u v = elim (Bool-cases (text_eq sig.market_type (codes "spot"))) [
    | inl spot ↦ rw spot v
    | inr futures ↦ elim (Bool-cases (is_empty sig.symbol)) [
      | inl nameless ↦ rw (futures, nameless) v
      | inr named ↦ rw (futures, named) (track_type-IsBooked sig.sig_type now sig t u v)
    ]
  ]

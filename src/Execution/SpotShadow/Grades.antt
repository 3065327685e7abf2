-- ===== src/Execution/SpotShadow/Grades.antt =====
-- The figures and the cached grades of the spot tracker, as each of its steps leaves them.
use tv_webhook_trader.Shared.{
  ℕ, ◌+◌, ◌≤◌, ◌≡◌, refl, ap, sym, ◌∙◌, false, not, if◌then◌else◌, List, [], ◌∷◌, ◌++◌, Option,
  none, some, Text, codes, text_eq, text_eq_iff, is_empty, leb, length, length-append, cap_to,
  select, has_text, lookup-insert, has_key, arith, Bool-cases, inl, inr,
}
use tv_webhook_trader.Shared.Double.{Double, min_of}
use tv_webhook_trader.Webhook.Signal.{WebhookSignal, SignalType, entry, tp, sl, re_entry, unknown}
use tv_webhook_trader.Execution.Trades.{TradeRecord}
use tv_webhook_trader.Execution.SpotShadow.{
  VirtualPosition, SpotShadowTracker, trade_key, find_position, get_grade, tp_close_pct,
  grade_of_key, refresh_grade, save_state, maybe_save, book_trade, with_positions, partial_close,
  close_position, is_followed, key_of,
}
use tv_webhook_trader.Execution.SpotShadow.Calls.{
  track_entry, take_profit, stop_out, track_tp, track_sl, track_type, track,
}

module _ {F : Type 0} ⦃d : Double F⦄ where
  -- As long as no trade had to go, all of them are kept and each grade is up to date.
  pub record IsUpToDate (t : SpotShadowTracker F) : Type 0 where
    pub kept : t.total_closes ≤ 5000 → length t.trades ≡ t.total_closes
    pub graded : t.total_closes ≤ 5000 → (key : Text) → get_grade key t ≡ grade_of_key key t.trades
    pub results : t.wins + t.losses ≡ t.total_closes

  select-other :
      (key : Text) (ts : List (TradeRecord F)) (tr : TradeRecord F)
      → text_eq (trade_key tr) key ≡ false
      → select (has_text trade_key key) (ts ++ tr ∷ []) ≡ select (has_text trade_key key) ts
  unfolding select
  select-other key [] tr h = rw h refl
  select-other key (t ∷ ts) tr h = ground (arith, select-other key ts tr h)

  uncapped : (n : ℕ) (ts : List (TradeRecord F)) → length ts ≤ n → cap_to n ts ≡ ts
  unfolding cap_to
  uncapped n ts h = ground arith

  grade_of_key-other :
      (key : Text) (ts : List (TradeRecord F)) (tr : TradeRecord F)
      → text_eq (trade_key tr) key ≡ false
      → grade_of_key key (ts ++ tr ∷ []) ≡ grade_of_key key ts
  unfolding grade_of_key
  grade_of_key-other key ts tr h = rw (select-other key ts tr h) refl

  book_trade-trades :
      (tr : TradeRecord F) (t : SpotShadowTracker F)
      → IsUpToDate t
      → t.total_closes + 1 ≤ 5000
      → (book_trade tr t).trades ≡ t.trades ++ tr ∷ []
  unfolding book_trade refresh_grade
  book_trade-trades tr t v h =
      uncapped 5000 (t.trades ++ tr ∷ [])
        (omega (arith, length-append t.trades (tr ∷ []), v.kept (omega arith)))

  -- The entry of the trade's key is made anew, the others stay.
  get_grade-book_trade :
      (key : Text) (tr : TradeRecord F) (t : SpotShadowTracker F)
      → get_grade key (book_trade tr t) ≡ (
          if text_eq (trade_key tr) key
          then grade_of_key (trade_key tr) (book_trade tr t).trades
          else get_grade key t)
  unfolding get_grade book_trade refresh_grade
  get_grade-book_trade key tr t =
      let found =
        lookup-insert (trade_key tr) key
          (grade_of_key (trade_key tr) (cap_to 5000 (t.trades ++ tr ∷ []))) t.symbol_grades in
      ground (arith, found)

  book_trade-counts :
      (tr : TradeRecord F) (t : SpotShadowTracker F)
      → let after = book_trade tr t in
        (after.total_closes ≡ t.total_closes + 1)
        × (after.wins + after.losses ≡ t.wins + t.losses + 1)
  unfolding book_trade refresh_grade
  book_trade-counts tr t = ground arith

  book_trade-IsUpToDate :
      (tr : TradeRecord F) (t : SpotShadowTracker F) → IsUpToDate t → IsUpToDate (book_trade tr t)
  book_trade-IsUpToDate tr t v =
      let n = book_trade-counts tr t in
      record {
        kept = λ h.
            ap length (book_trade-trades tr t v (omega (arith, n.0)))
            ∙ omega (arith, length-append t.trades (tr ∷ []), v.kept (omega (arith, n.0)), n.0);
        graded = λ h key. elim (Bool-cases (text_eq (trade_key tr) key)) [
          | inl own ↦
              let same : trade_key tr ≡ key = (text_eq_iff (trade_key tr) key).0 own in
              rw (get_grade-book_trade key tr t, own)
                (ap (λ k. grade_of_key k (book_trade tr t).trades) same)
          | inr other ↦
              rw (get_grade-book_trade key tr t, other)
                (v.graded (omega (arith, n.0)) key
                  ∙ sym (grade_of_key-other key t.trades tr other)
                  ∙ sym (ap (grade_of_key key) (book_trade-trades tr t v (omega (arith, n.0)))))
        ];
        results = omega (arith, n, v.results);
      }

  -- What the grades are made of stays.
  maybe_save-IsUpToDate : (t : SpotShadowTracker F) → IsUpToDate t → IsUpToDate (maybe_save t)
  unfolding maybe_save save_state get_grade
  maybe_save-IsUpToDate t v = elim (Bool-cases (leb 10 (t.ops_since_save + 1))) [
    | inl full ↦ rw full (record { kept = v.kept; graded = v.graded; results = v.results })
    | inr few ↦ rw few (record { kept = v.kept; graded = v.graded; results = v.results })
  ]

  closing-IsUpToDate :
      (tr : TradeRecord F) (ps : List (Text × VirtualPosition F)) (t : SpotShadowTracker F)
      → IsUpToDate t
      → IsUpToDate (maybe_save (with_positions ps (book_trade tr t)))
  unfolding get_grade
  closing-IsUpToDate tr ps t v =
      let b = book_trade-IsUpToDate tr t v in
      maybe_save-IsUpToDate (with_positions ps (book_trade tr t))
        (record { kept = b.kept; graded = b.graded; results = b.results })

  partial_close-IsUpToDate :
      (key : Text) (vp : VirtualPosition F) (exit : F) (reason : Text) (pct : F)
      (t : SpotShadowTracker F)
      → IsUpToDate t
      → IsUpToDate (partial_close key vp exit reason pct t)
  unfolding partial_close
  partial_close-IsUpToDate key vp exit reason pct t v = closing-IsUpToDate _ _ t v

  close_position-IsUpToDate :
      (key : Text) (vp : VirtualPosition F) (exit : F) (reason : Text) (t : SpotShadowTracker F)
      → IsUpToDate t
      → IsUpToDate (close_position key vp exit reason t)
  unfolding close_position
  close_position-IsUpToDate key vp exit reason t v = closing-IsUpToDate _ _ t v

  track_entry-IsUpToDate :
      (now : ℕ) (sig : WebhookSignal F) (t : SpotShadowTracker F)
      → IsUpToDate t
      → IsUpToDate (track_entry now sig t)
  unfolding track_entry get_grade
  track_entry-IsUpToDate now sig t v = elim (Bool-cases (not (text_eq sig.action (codes "buy")))) [
    | inl sold ↦ rw sold v
    | inr bought ↦ elim (Bool-cases (not (is_followed sig.symbol sig.exchange))) [
      | inl strange ↦ rw (bought, strange) v
      | inr followed ↦ elim (Bool-cases (has_key (key_of sig) t.positions)) [
        | inl held ↦ rw (bought, followed, held) v
        | inr free_key ↦
            rw (bought, followed, free_key)
              (maybe_save-IsUpToDate _
                (record { kept = v.kept; graded = v.graded; results = v.results }))
      ]
    ]
  ]

  take_profit-IsUpToDate :
      (sig : WebhookSignal F) (found : Option (Text × VirtualPosition F)) (t : SpotShadowTracker F)
      → IsUpToDate t
      → IsUpToDate (take_profit sig found t)
  take_profit-IsUpToDate sig none t v = v
  take_profit-IsUpToDate sig (some (key, vp)) t v =
      let pct = min_of (tp_close_pct sig.tp_level) vp.remaining_pct in
      elim (Bool-cases (d.le vp.remaining_pct pct)) [
        | inl all ↦ rw all (close_position-IsUpToDate key vp sig.price _ t v)
        | inr some_left ↦ rw some_left (partial_close-IsUpToDate key vp sig.price _ pct t v)
      ]

  stop_out-IsUpToDate :
      (sig : WebhookSignal F) (found : Option (Text × VirtualPosition F)) (t : SpotShadowTracker F)
      → IsUpToDate t
      → IsUpToDate (stop_out sig found t)
  stop_out-IsUpToDate sig none t v = v
  stop_out-IsUpToDate sig (some (key, vp)) t v =
      close_position-IsUpToDate key vp sig.price (codes "SL") t v

  track_type-IsUpToDate :
      (ty : SignalType) (now : ℕ) (sig : WebhookSignal F) (t : SpotShadowTracker F)
      → IsUpToDate t
      → IsUpToDate (track_type ty now sig t)
  unfolding track_type track_tp track_sl
  track_type-IsUpToDate entry now sig t v = track_entry-IsUpToDate now sig t v
  track_type-IsUpToDate re_entry now sig t v = track_entry-IsUpToDate now sig t v
  track_type-IsUpToDate tp now sig t v =
      elim (Bool-cases (text_eq sig.signal_direction (codes "bull"))) [
        | inl bull ↦ rw bull (take_profit-IsUpToDate sig (find_position sig t.positions) t v)
        | inr bear ↦ rw bear v
      ]
  track_type-IsUpToDate sl now sig t v =
      elim (Bool-cases (text_eq sig.signal_direction (codes "bull"))) [
        | inl bull ↦ rw bull (stop_out-IsUpToDate sig (find_position sig t.positions) t v)
        | inr bear ↦ rw bear v
      ]
  track_type-IsUpToDate unknown now sig t v = v

  pub track-IsUpToDate :
      (now : ℕ) (sig : WebhookSignal F) (t : SpotShadowTracker F)
      → IsUpToDate t
      → IsUpToDate (track now sig t)
  unfolding track
  track-IsUpToDate now sig t v = elim (Bool-cases (not (text_eq sig.market_type (codes "spot")))) [
    | inl futures ↦ rw futures v
    | inr spot ↦ elim (Bool-cases (is_empty sig.symbol)) [
      | inl nameless ↦ rw (spot, nameless) v
      | inr named ↦ rw (spot, named) (track_type-IsUpToDate sig.sig_type now sig t v)
    ]
  ]

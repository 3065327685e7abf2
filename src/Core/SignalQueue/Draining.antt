-- ===== src/Core/SignalQueue/Draining.antt =====
-- What the queue promises to a single caller: when a push is refused, and how consumers leave after
-- `shutdown`.
use tv_webhook_trader.Shared.{
  ◌+◌, ◌≤◌, ◌≡◌, refl, ap, ◌↔◌, true, false, none, some, List, [], ◌∷◌, ◌++◌, map, arith, length,
}
use tv_webhook_trader.Core.SignalQueue.{
  SignalQueue, Round, returned, Wake, try_push, wait_round, shutdown,
}

module _ {ℓ} {A : Type ℓ} where
  -- A push succeeds exactly when the queue holds fewer items than its capacity. It then adds the
  -- item behind the others; refused, it leaves the queue as it was.
  pub try_push_lem :
      (x : A) (q : SignalQueue A)
      → (((try_push x q).1 ≡ true) ↔ (length q.items + 1 ≤ q.max_cap))
        × ((try_push x q).1 ≡ true → (try_push x q).0 ≡ record q { items = q.items ++ x ∷ [] })
        × ((try_push x q).1 ≡ false → (try_push x q).0 ≡ q)
  unfolding try_push
  try_push_lem x q = ground arith

  -- The results of consecutive rounds, and the queue behind them.
  pub wait_rounds : List Wake → SignalQueue A → List (Round A) × SignalQueue A
  wait_rounds [] q = ([], q)
  wait_rounds (w ∷ ws) q =
      let r = wait_round w q in let rest = wait_rounds ws r.0 in (r.1 ∷ rest.0, rest.1)

  wait_rounds_items :
      (q : SignalQueue A) (xs : List A) (ws : List Wake)
      → q.items ≡ xs
      → length ws ≡ length xs
      → (wait_rounds ws q).0 ≡ map (λ x. returned (some x)) xs
        × ((wait_rounds ws q).1 ≡ record q { items = [] })
  unfolding wait_rounds wait_round
  wait_rounds_items q [] [] e h = ground arith
  wait_rounds_items q [] (w ∷ ws) e h = absurd (omega arith)
  wait_rounds_items q (x ∷ xs) [] e h = absurd (omega arith)
  wait_rounds_items q (x ∷ xs) (w ∷ ws) e h =
      ground (arith, wait_rounds_items (record q { items = xs }) xs ws refl (omega arith))

  wait_round_empty :
      (q : SignalQueue A) (w : Wake)
      → q.is_shutdown ≡ true
      → wait_round w (record q { items = [] }) ≡ (record q { items = [] }, returned none)
  unfolding wait_round
  wait_round_empty q w s = ground arith

  -- After `shutdown` no consumer blocks: one round for each item that is left hands the items out
  -- in order, whatever woke the consumers, and every round behind those returns nothing.
  pub wait_rounds-shutdown :
      (q : SignalQueue A) (ws : List Wake) (w : Wake)
      → length ws ≡ length q.items
      → let s = shutdown q in
        ((wait_rounds ws s).0 ≡ map (λ x. returned (some x)) q.items)
        × ((wait_rounds ws s).1.items ≡ [])
        × (wait_round w (wait_rounds ws s).1 ≡ ((wait_rounds ws s).1, returned none))
  unfolding shutdown
  wait_rounds-shutdown q ws w h =
      let (outs, end) = wait_rounds_items (shutdown q) q.items ws refl h in
      (outs, ap (λ r. r.items) end, rw end (wait_round_empty (shutdown q) w refl))

-- ===== src/Execution/AutoLive/Modes.antt =====
-- The modes of the engine over any sequence of checks.
use tv_webhook_trader.Shared.{
  ◌≡◌, sym, subst, Text, Bool, true, not, if◌then◌else◌, List, [], ◌∷◌, arith,
}
use tv_webhook_trader.Shared.Double.{Double}
use tv_webhook_trader.Shared.Sorter.{Sorter}
use tv_webhook_trader.Risk.Portfolio.{set_shadow_mode}
use tv_webhook_trader.Execution.Readiness.{ReadinessConfig}
use tv_webhook_trader.Execution.AutoLive.{
  AutoLive, Trackers, activate, deactivate, refreshed, enriched, check_auto_live,
}

module _ {F : Type 0} where
  -- The engine is live exactly as long as it went live by itself, and the risk manager knows.
  pub record IsConsistent (e : AutoLive F) : Type 0 where
    pub live : e.auto_live_active ≡ not e.shadow_mode
    pub told : e.port_risk.shadow_mode ≡ e.shadow_mode

  -- What a check makes of it.
  pub record IsSwitched (can_go_live : Bool) (keys : List Text) (after : AutoLive F) : Type 0 where
    pub consistent : IsConsistent after
    pub mode : after.shadow_mode ≡ not can_go_live
    pub keys_kept : after.eligible_keys ≡ keys
    pub automatic : after.auto_live ≡ true

  switch-IsSwitched :
      (can_go_live : Bool) (e : AutoLive F)
      → IsConsistent e
      → e.auto_live ≡ true
      → IsSwitched can_go_live e.eligible_keys (deactivate can_go_live (activate can_go_live e))
  unfolding activate deactivate set_shadow_mode
  switch-IsSwitched can_go_live e v on = ground arith

module _ {F : Type 0} ⦃d : Double F⦄ (c : ReadinessConfig) ⦃s : Sorter⦄ where
  pub check_auto_live-IsSwitched :
      (t : Trackers F) (e : AutoLive F)
      → IsConsistent e
      → e.auto_live ≡ true
      → IsSwitched
          (refreshed c t e.readiness).status.can_go_live
          (enriched c t e.readiness).eligible_keys
          (check_auto_live c t e)
  unfolding check_auto_live
  check_auto_live-IsSwitched t e v on =
      let can = (refreshed c t e.readiness).status.can_go_live in
      let x = enriched c t e.readiness in
      let e' : AutoLive F = record e { eligible_keys = x.eligible_keys; readiness = x.engine } in
      subst
        (λ b. IsSwitched can x.eligible_keys (if b then deactivate can (activate can e') else e))
        (sym on) (switch-IsSwitched can e' (record { live = v.live; told = v.told }) on)

  unfoldable pub check_all : List (Trackers F) → AutoLive F → AutoLive F
  check_all [] e = e
  check_all (t ∷ ts) e = check_all ts (check_auto_live c t e)

  pub check_all-IsConsistent :
      (ts : List (Trackers F)) (e : AutoLive F)
      → IsConsistent e
      → e.auto_live ≡ true
      → IsConsistent (check_all ts e) × ((check_all ts e).auto_live ≡ true)
  unfolding check_all
  check_all-IsConsistent [] e v on = (v, on)
  check_all-IsConsistent (t ∷ ts) e v on =
      let h = check_auto_live-IsSwitched t e v on in
      check_all-IsConsistent ts (check_auto_live c t e) h.consistent h.automatic

  -- If the engine may go live by itself, and starts in shadow mode or else having gone live by itself,
  -- with the same mode in the risk manager, then after any sequence of checks and one more: it is live
  -- exactly if that last check found enough symbols at READY and PROVEN, whatever came before; the
  -- switch of the automatic mode agrees; and the risk manager applies the limits of the same mode.
  pub check_all-shadow_mode :
      (ts : List (Trackers F)) (t : Trackers F) (e : AutoLive F)
      → IsConsistent e
      → e.auto_live ≡ true
      → let before = check_all ts e in
        let after = check_auto_live c t before in
        (after.shadow_mode ≡ not (refreshed c t before.readiness).status.can_go_live)
        × (after.auto_live_active ≡ not after.shadow_mode)
        × (after.port_risk.shadow_mode ≡ after.shadow_mode)
  check_all-shadow_mode ts t e v on =
      let start = check_all-IsConsistent ts e v on in
      let h = check_auto_live-IsSwitched t (check_all ts e) start.0 start.1 in
      (h.mode, h.consistent.live, h.consistent.told)

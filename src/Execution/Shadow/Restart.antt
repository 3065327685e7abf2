-- ===== src/Execution/Shadow/Restart.antt =====
-- include/execution/shadow_tracker.hpp: load_state, which the constructor calls, and what a restart
-- keeps of the tracker that was saved. The JSON library, which turns the values into a file and back, is a
-- parameter.
use tv_webhook_trader.Shared.{
  ◌/◌, ◌*◌, ◌≡◌, Bool, true, false, if◌then◌else◌, List, [], ◌∷◌, Option, none, some, Text, text_eq,
  is_empty, map, insert, contains, put, latest, All,
}
use tv_webhook_trader.Shared.Double.{Double}
use tv_webhook_trader.Execution.Trades.{TradeRecord}
use tv_webhook_trader.Execution.Shadow.{
  VirtualPosition, VirtualBook, ShadowFile, ShadowTracker, file_trade, fresh_tracker, state_file,
}

-- A position is taken back at the whole second; one without a symbol is dropped.
unfoldable pub restore_positions : {F : Type 0} → VirtualBook F → VirtualBook F → VirtualBook F
restore_positions [] m = m
restore_positions ((key, vp) ∷ ps) m =
    restore_positions ps (
      if is_empty vp.symbol
      then m
      else insert key (record vp { opened_at = vp.opened_at * 1000 }) m)

unfoldable pub restore_keys : List Text → List Text → List Text
restore_keys [] s = s
restore_keys (k ∷ ks) s = restore_keys ks (put k s)

-- `dump` is dump(2) of the values, with none where it throws. `parse` is what load_state takes out of a
-- file, a B, before it is through or something throws; what it does not reach, and what it does not find, is as
-- in a fresh tracker. `is_utf8` tells the texts that dump accepts.
pub record Storage (F B : Type 0) : Type 0 where
  pub dump : ShadowFile F → Option B
  pub parse : B → ShadowFile F
  pub is_utf8 : Text → Bool

module _ {F : Type 0} ⦃d : Double F⦄ where
  abbrev restored : ShadowFile F → ShadowTracker F
  restored f =
      let s = f.live_equiv_stats in
      record fresh_tracker {
        positions = restore_positions f.positions [];
        trades = f.trades;
        total_entries = f.stats.total_entries;
        total_closes = f.stats.total_closes;
        wins = f.stats.wins;
        losses = f.stats.losses;
        total_pnl = f.stats.total_pnl;
        live_equiv_stats = record s { open_positions = 0 };
        live_equiv_keys = restore_keys f.live_equiv_keys [];
        live_equiv_trades = f.live_equiv_trades;
        file = some f;
      }

  -- The file on the disk after a save: the one before where dump throws.
  unfoldable pub saved : {B : Type 0} → Storage F B → Option B → ShadowTracker F → Option B
  saved st disk t = elim (st.dump (state_file t)) [ none ↦ disk | some body ↦ some body ]

  -- No file leaves a fresh tracker.
  unfoldable pub load_state : {B : Type 0} → Storage F B → Option B → ShadowTracker F
  load_state st none = fresh_tracker
  load_state st (some body) = restored (st.parse body)

  abbrev trade_numbers : TradeRecord F → List F
  trade_numbers t =
      t.entry_price ∷ t.exit_price ∷ t.quantity ∷ t.pnl ∷ t.fee ∷ t.gross_pnl ∷ t.net_pnl
      ∷ t.fee_cost ∷ t.realized_rr ∷ []

  abbrev trade_texts : TradeRecord F → List Text
  trade_texts t = t.symbol ∷ t.timeframe ∷ t.market_type ∷ t.exit_reason ∷ t.strategy ∷ []

  abbrev IsFinite : F → Type 0
  IsFinite x = d.is_finite x ≡ true

  abbrev position_numbers : VirtualPosition F → List F
  position_numbers p = p.entry_price ∷ p.sl_price ∷ p.tp1_price ∷ []

  abbrev position_texts : Text → VirtualPosition F → List Text
  position_texts key p = key ∷ p.symbol ∷ p.timeframe ∷ p.side ∷ p.strategy ∷ []

  -- All numbers that are written are finite.
  pub record AllFinite (f : ShadowFile F) : Type 0 where
    pub positions : All (λ kp. All IsFinite (position_numbers kp.1)) f.positions
    pub trades : All (λ t. All IsFinite (trade_numbers t)) f.trades
    pub pnl : IsFinite f.stats.total_pnl
    pub live_pnl : IsFinite f.live_equiv_stats.total_pnl
    pub live_rate : IsFinite f.live_equiv_stats.win_rate
    pub live_trades : All (λ t. All IsFinite (trade_numbers t)) f.live_equiv_trades

  -- All texts that are written are UTF-8.
  pub record AllUtf8 {B : Type 0} (st : Storage F B) (f : ShadowFile F) : Type 0 where
    pub positions :
        All (λ kp. All (λ s. st.is_utf8 s ≡ true) (position_texts kp.0 kp.1)) f.positions
    pub trades : All (λ t. All (λ s. st.is_utf8 s ≡ true) (trade_texts t)) f.trades
    pub keys : All (λ k. st.is_utf8 k ≡ true) f.live_equiv_keys
    pub live_trades : All (λ t. All (λ s. st.is_utf8 s ≡ true) (trade_texts t)) f.live_equiv_trades

  -- The values that are written: the rest of the figures is not.
  abbrev pub written : ShadowFile F → ShadowFile F
  written f =
      let s = f.stats in
      let l = f.live_equiv_stats in
      record f {
        stats = record s { open_positions = 0; win_rate = d.decimal 0 0 };
        live_equiv_stats = record l { open_positions = 0 };
      }

  -- The documented behaviour of the library: finite numbers and UTF-8 texts come back as they went out.
  pub record IsFaithful {B : Type 0} (st : Storage F B) : Type 0 where
    pub comes_back :
        (f : ShadowFile F)
        → AllFinite f
        → AllUtf8 st f
        → (body : B) × (st.dump f ≡ some body) × (st.parse body ≡ written f)

module _ {V : Type 0} where
  abbrev IsApart : Text → List (Text × V) → Type 0
  IsApart k m = All (λ kv. text_eq k kv.0 ≡ false) m

-- The position as the file gives it back.
abbrev pub to_second : {F : Type 0} → VirtualPosition F → VirtualPosition F
to_second vp = record vp { opened_at = vp.opened_at / 1000 * 1000 }

abbrev pub all_to_second : {F : Type 0} → VirtualBook F → VirtualBook F
all_to_second ps = map (λ kv. (kv.0, to_second kv.1)) ps

abbrev pub AllNamed : {F : Type 0} → VirtualBook F → Type 0
AllNamed ps = All (λ kv. is_empty kv.1.symbol ≡ false) ps

-- As state_file writes a position.
abbrev cut_to_second : {F : Type 0} → VirtualPosition F → VirtualPosition F
cut_to_second vp = record vp { opened_at = vp.opened_at / 1000 }

module _ {F : Type 0} ⦃d : Double F⦄ where
  -- What a restart makes of a tracker that was saved.
  pub record IsRestored (t after : ShadowTracker F) : Type 0 where
    pub positions : after.positions ≡ all_to_second t.positions
    pub trades : after.trades ≡ map file_trade (latest 1000 t.trades)
    pub entries : after.total_entries ≡ t.total_entries
    pub closes : after.total_closes ≡ t.total_closes
    pub won : after.wins ≡ t.wins
    pub lost : after.losses ≡ t.losses
    pub pnl : after.total_pnl ≡ t.total_pnl
    pub live_entries : after.live_equiv_stats.total_entries ≡ t.live_equiv_stats.total_entries
    pub live_won : after.live_equiv_stats.wins ≡ t.live_equiv_stats.wins
    pub live_lost : after.live_equiv_stats.losses ≡ t.live_equiv_stats.losses
    pub live_rate : after.live_equiv_stats.win_rate ≡ t.live_equiv_stats.win_rate
    pub live_closes : after.live_equiv_stats.total_closes ≡ t.live_equiv_stats.total_closes
    pub live_pnl : after.live_equiv_stats.total_pnl ≡ t.live_equiv_stats.total_pnl
    pub keys : (k : Text) → contains after.live_equiv_keys k ≡ contains t.live_equiv_keys k
    pub live_trades : after.live_equiv_trades ≡ map file_trade (latest 500 t.live_equiv_trades)

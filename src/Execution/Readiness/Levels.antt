-- ===== src/Execution/Readiness/Levels.antt =====
-- What a symbol has to show before it may trade live, and the summary of all symbols.
use tv_webhook_trader.Shared.{
  ◌≡◌, refl, sym, ap, ◌∙◌, Bool, not, ◌&&◌, ◌||◌, if◌then◌else◌, List, [], ◌∷◌, Text, codes,
  text_eq, text_eq_iff, ℤ, pos, ◌+ℤ◌, ltb_ℤ, leb_ℤ, int_laws, arith, Bool-cases, inl, inr,
}
use tv_webhook_trader.Shared.Double.{Double, nought}
use tv_webhook_trader.Execution.Readiness.{
  ReadinessLevel, blocked, learning, promising, ready, proven, SymbolReadiness, PipelineStatus,
  ReadinessConfig, is_live_level, count_level, count_levels, length_ℤ, fresh_status,
  get_pipeline_status, level_of,
}

abbrev pub has_grade_a : Text → Bool
has_grade_a grade = text_eq grade (codes "A+") || text_eq grade (codes "A")

module _ {F : Type 0} ⦃d : Double F⦄ where
  -- At least fifteen trades and the configured number for the grade, and a profit if one is required.
  abbrev pub earns_live : ReadinessConfig → Text → ℤ → F → Bool
  earns_live c grade total pnl =
      not (ltb_ℤ total (pos 15))
      && (d.lt nought pnl || not c.require_positive_pnl)
      && ((has_grade_a grade && (leb_ℤ c.min_trades_proven total || leb_ℤ c.min_trades_ready total))
          || (text_eq grade (codes "B") && leb_ℤ c.min_trades_ready total))

  -- The level READY or PROVEN is given exactly to the symbols of grade A+, A or B that have a profit, if
  -- one is required, fifteen trades and the configured number: for A+ and A the smaller one of the two
  -- settings, and for B that of READY.
  pub is_live_level-level_of :
      (c : ReadinessConfig) (grade : Text) (total : ℤ) (pnl : F)
      → is_live_level (level_of c grade total pnl) ≡ earns_live c grade total pnl
  unfolding level_of text_eq ltb_ℤ
  is_live_level-level_of c grade total pnl = elim (Bool-cases (text_eq grade (codes "A+"))) [
    | inl e ↦
        let same : grade ≡ codes "A+" = (text_eq_iff grade (codes "A+")).0 e in
        rw same (ground arith)
    | inr no_plus ↦ elim (Bool-cases (text_eq grade (codes "A"))) [
      | inl e ↦
          let same : grade ≡ codes "A" = (text_eq_iff grade (codes "A")).0 e in
          rw same (ground arith)
      | inr no_a ↦ elim (Bool-cases (text_eq grade (codes "B"))) [
        | inl e ↦
            let same : grade ≡ codes "B" = (text_eq_iff grade (codes "B")).0 e in
            rw same (ground arith)
        | inr no_b ↦ rw (no_plus, no_a, no_b) (ground arith)
      ]
    ]
  ]

abbrev all_counts : PipelineStatus → ℤ
all_counts ps =
    ps.blocked_count +ℤ ps.learning_count +ℤ ps.promising_count +ℤ ps.ready_count +ℤ ps.proven_count

abbrev live_counts : PipelineStatus → ℤ
live_counts ps = ps.ready_count +ℤ ps.proven_count

-- The symbols of a live level.
abbrev pub count_live : {F : Type 0} → List (SymbolReadiness F) → ℤ
count_live [] = pos 0
count_live (r ∷ rs) = count_live rs +ℤ (if is_live_level r.level then pos 1 else pos 0)

record IsCounted (n live : ℤ) (ps after : PipelineStatus) : Type 0 where
  all : all_counts after ≡ all_counts ps +ℤ n
  lives : live_counts after ≡ live_counts ps +ℤ live
  same_total : after.total_symbols ≡ ps.total_symbols

count_level-IsCounted :
    (l : ReadinessLevel) (ps : PipelineStatus)
    → IsCounted (pos 1) (if is_live_level l then pos 1 else pos 0) ps (count_level l ps)
unfolding count_level
count_level-IsCounted blocked ps = record {
  all = omega int_laws;
  lives = omega int_laws;
  same_total = refl;
}
count_level-IsCounted learning ps = record {
  all = omega int_laws;
  lives = omega int_laws;
  same_total = refl;
}
count_level-IsCounted promising ps = record {
  all = omega int_laws;
  lives = omega int_laws;
  same_total = refl;
}
count_level-IsCounted ready ps = record {
  all = omega int_laws;
  lives = omega int_laws;
  same_total = refl;
}
count_level-IsCounted proven ps = record {
  all = omega int_laws;
  lives = omega int_laws;
  same_total = refl;
}

add_step : (a b m : ℤ) → a +ℤ b +ℤ m ≡ a +ℤ (m +ℤ b)
add_step a b m = omega int_laws

count_levels-IsCounted :
    {F : Type 0} (rs : List (SymbolReadiness F)) (ps : PipelineStatus)
    → IsCounted (length_ℤ rs) (count_live rs) ps (count_levels rs ps)
unfolding count_levels
count_levels-IsCounted [] ps = record {
  all = omega int_laws;
  lives = omega int_laws;
  same_total = refl;
}
count_levels-IsCounted (r ∷ rs) ps =
    let one = count_level-IsCounted r.level ps in
    let ih = count_levels-IsCounted rs (count_level r.level ps) in
    record {
      all = ih.all ∙ ap (λ n. n +ℤ length_ℤ rs) one.all ∙ add_step _ _ _;
      lives = ih.lives ∙ ap (λ n. n +ℤ count_live rs) one.lives ∙ add_step _ _ _;
      same_total = ih.same_total ∙ one.same_total;
    }

from_nought :
    (n : ℤ) → (pos 0 +ℤ pos 0 +ℤ pos 0 +ℤ pos 0 +ℤ pos 0 +ℤ n ≡ n) × (pos 0 +ℤ pos 0 +ℤ n ≡ n)
from_nought n = (omega int_laws, omega int_laws)

-- Each symbol is counted under one level, and live trading opens exactly where the symbols of the levels
-- READY and PROVEN reach the configured number.
pub get_pipeline_status-counts :
    {F : Type 0} (c : ReadinessConfig) (rs : List (SymbolReadiness F))
    → let ps = get_pipeline_status c rs in
      (ps.blocked_count +ℤ ps.learning_count +ℤ ps.promising_count +ℤ ps.ready_count
          +ℤ ps.proven_count
        ≡ ps.total_symbols)
      × (ps.can_go_live ≡ leb_ℤ c.min_symbols (count_live rs))
unfolding get_pipeline_status
get_pipeline_status-counts c rs =
    let h = count_levels-IsCounted rs (fresh_status c rs) in
    (
      h.all ∙ (from_nought (length_ℤ rs)).0 ∙ sym h.same_total,
      ap (leb_ℤ c.min_symbols) (h.lives ∙ (from_nought (count_live rs)).1),
    )

-- ===== src/Webhook/Repair.antt =====
-- include/webhook/signal_types.hpp, from_json: the two repairs of a body that is no JSON.
pub mod Quotes
use tv_webhook_trader.Shared.{Bool, true, false, ◌&&◌, if◌then◌else◌, List, [], ◌∷◌, Text, ◌==◌, ℕ}

-- Runs of quotes become one quote: a quote is dropped if one stands before it.
abbrev collapse_step : Bool → ℕ → Text → Text
collapse_step after_quote c rest = if after_quote && (c == b'"') then rest else c ∷ rest

collapse : Bool → Text → Text
collapse after_quote [] = []
collapse after_quote (c ∷ s) = collapse_step after_quote c (collapse (c == b'"') s)

unfoldable pub sanitize : Text → Text
unfolding collapse
sanitize s = collapse false s

-- Blanks, then the byte c.
blanks_then : ℕ → Text → Bool
blanks_then c [] = false
blanks_then c (x ∷ s) = elim (x == b' ') [ true ↦ blanks_then c s | false ↦ x == c ]

-- From the byte after the next quote: blanks, then a colon.
after_quote_colon : Text → Bool
unfolding blanks_then
after_quote_colon [] = false
after_quote_colon (x ∷ s) = elim (x == b'"') [
  | true ↦ blanks_then b':' s
  | false ↦ after_quote_colon s
]

-- Behind a comma: blanks, and a quoted key with its colon.
unfoldable pub next_key : Text → Bool
unfolding after_quote_colon
next_key [] = false
next_key (x ∷ s) = elim (x == b' ') [
  | true ↦ next_key s
  | false ↦ if x == b'"' then after_quote_colon s else false
]

-- Where the scan stands: before a colon, between a colon and the quote of its value, in a value, and
-- in a value behind a backslash.
pub data Mode : Type 0 where
  seek gap value escaped : Mode

-- Whether a quote is put in front of the byte c, and the mode behind c. The text s follows c.
unfoldable pub scan : Mode → ℕ → Text → Bool × Mode
unfolding blanks_then next_key
scan seek c s =
    if c == b':'
    then (if blanks_then b'"' s then (false, gap) else (false, seek))
    else (false, seek)
scan gap c s = if c == b'"' then (false, value) else (false, gap)
scan value c s =
    if c == 92
    then (false, escaped)
    else if c == b'"'
    then (false, seek)
    else if c == b','
    then (if next_key s then (true, seek) else (false, value))
    else (false, value)
scan escaped c s = (false, value)

unfoldable pub fix_quotes : Mode → Text → Text
unfolding scan
fix_quotes m [] = []
fix_quotes m (c ∷ s) =
    let r = scan m c s in let rest = fix_quotes r.1 s in if r.0 then b'"' ∷ c ∷ rest else c ∷ rest

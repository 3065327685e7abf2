-- ===== src/Tests/Webhook.antt =====
-- include/webhook on concrete inputs, with a library of JSON values that are texts, whole numbers and
-- objects.
use tv_webhook_trader.Shared.{
  [], ◌≡◌, refl, Bool, true, false, ◌||◌, if◌then◌else◌, ◌∷◌, ◌++◌, Option, none, some, Text, codes,
  text_eq, ℤ, pos, arith,
}
use tv_webhook_trader.Shared.Double.{whole}
use tv_webhook_trader.Shared.Json.{Json, Outcome, done, thrown}
use tv_webhook_trader.Webhook.Signal.{WebhookSignal, blank_signal}
use tv_webhook_trader.Webhook.Repair.{fix_quotes, seek}
use tv_webhook_trader.Webhook.Repair.Quotes.{fix_quotes_lem}
use tv_webhook_trader.Webhook.Parser.{parse_sfx, read_sfx, parse_price_field, current_rating}
use tv_webhook_trader.Webhook.Parser.Laws.{IsFrom, IsReadable, parse_sfx-IsReadable}

-- ": "ab, "tp1": 3"
fix_quotes_example :
    let next = codes " " ++ b'"' ∷ (codes "tp1" ++ b'"' ∷ (codes "" ++ b':' ∷ codes " 3")) in
    (fix_quotes seek (b':' ∷ (codes " " ++ b'"' ∷ (codes "ab" ++ b',' ∷ next)))
      ≡ b':' ∷ (codes " " ++ b'"' ∷ (codes "ab" ++ b'"' ∷ b',' ∷ fix_quotes seek next)))
    × (fix_quotes seek (b':' ∷ (codes " " ++ b'"' ∷ (codes "ab" ++ b'"' ∷ codes "}")))
        ≡ b':' ∷ (codes " " ++ b'"' ∷ (codes "ab" ++ b'"' ∷ fix_quotes seek (codes "}"))))
fix_quotes_example =
    fix_quotes_lem (codes " ") (codes "ab") (codes " ") (codes "tp1") (codes "") (codes " 3")
      (codes "}") (refl, tt) (refl, tt) tt (ground arith) (ground arith)

-- An object is the list of its fields.
data Value : Type 0 where
  word : Text → Value
  number : ℤ → Value
  end : Value
  field : Text → Value → Value → Value

abbrev has : Value → Text → Bool
has (word s) k = false
has (number n) k = false
has end k = false
has (field j v rest) k = text_eq j k || has rest k

abbrev at : Value → Text → Value
at (word s) k = end
at (number n) k = end
at end k = end
at (field j v rest) k = if text_eq j k then v else at rest k

abbrev is_string : Value → Bool
is_string (word s) = true
is_string (number n) = false
is_string end = false
is_string (field j v rest) = false

abbrev is_number : Value → Bool
is_number (word s) = false
is_number (number n) = true
is_number end = false
is_number (field j v rest) = false

abbrev get_text : Value → Outcome Text
get_text (word s) = done s
get_text (number n) = thrown
get_text end = thrown
get_text (field j v rest) = thrown

abbrev get_number : Value → Outcome ℤ
get_number (word s) = thrown
get_number (number n) = done n
get_number end = thrown
get_number (field j v rest) = thrown

-- Bodies are parsed outside; nothing here reads one.
abbrev values : Json ℤ Value
values = record {
  parse = λ s. none;
  has = has;
  at = at;
  is_string = is_string;
  is_number = is_number;
  value_text = λ j k default. if has j k then get_text (at j k) else done default;
  value_int = λ j k default. if has j k then get_number (at j k) else done default;
  value_double = λ j k default. if has j k then get_number (at j k) else done default;
  get_text = get_text;
  get_int = get_number;
  get_double = get_number;
  items = λ v. [];
}

abbrev sfx_body : Value
sfx_body = field (codes "ticker") (word (codes "BTCUSDT.P")) (
    field (codes "alert") (word (codes "BUY")) (
      field (codes "current_rating") (word (codes "85"))
        (field (codes "close") (number (pos 64000)) end)))

abbrev signal_in : Outcome (Option (WebhookSignal ℤ)) → Option (WebhookSignal ℤ)
signal_in (done r) = r
signal_in thrown = none

abbrev sfx_result : Option (WebhookSignal ℤ)
sfx_result = signal_in (parse_sfx values sfx_body (blank_signal 5))

sfx_body-parsed : parse_sfx values sfx_body (blank_signal 5) ≡ done sfx_result
unfolding parse_sfx read_sfx parse_price_field current_rating text_eq
sfx_body-parsed = refl

parse_sfx_example :
    (s : WebhookSignal ℤ) × (sfx_result ≡ some s) × IsFrom values sfx_body s × IsReadable values s
parse_sfx_example = parse_sfx-IsReadable values sfx_body (blank_signal 5) sfx_result sfx_body-parsed

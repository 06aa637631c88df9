-- ===== src/Llm/Repair.antt =====
-- llm/json_repair.rs: tool arguments that are not valid JSON, because they were cut off or hold raw
-- control characters and backslashes.
pub mod Escaped
pub mod Trimmed
pub mod Balanced
use mathlib.Core.List.{reverse}
use mathlib.Core.Option.{bind}
use piscis_engine.Prelude.{
  ℕ, zero, suc, ◌+◌, ◌-◌, ◌/◌, ◌%◌, Bool, true, false, not, ◌&&◌, ◌||◌, Option, none, some, List,
  [], ◌∷◌, ◌++◌, ◌==◌, ltb, leb, if◌then◌else◌, length, take, drop, all, any, is_empty, Text, text,
  trim, trim_start, is_blank,
}

abbrev pub quote : ℕ
quote = 34

abbrev pub backslash : ℕ
backslash = 92

-- `char::is_ascii_hexdigit`.
unfoldable pub is_hex : ℕ → Bool
is_hex c = (leb b'0' c && leb c b'9') || (leb b'A' c && leb c b'F') || (leb b'a' c && leb c b'f')

-- `{:x}` of a digit.
unfoldable pub hex_digit : ℕ → ℕ
hex_digit n = if ltb n 10 then b'0' + n else 87 + n

-- What an iteration of the loop pushes, how much of the rest it skips, whether it leaves the text
-- in a string, and whether it sets `changed`.
pub record Piece : Type 0 where
  pub pushed : Text
  pub skip : ℕ
  pub in_string : Bool
  pub changed : Bool

abbrev pub kept : ℕ → Bool → Piece
kept c in_string = record { pushed = c ∷ []; skip = 0; in_string = in_string; changed = false }

abbrev pub escaped : Text → Piece
escaped pushed = record { pushed = pushed; skip = 0; in_string = true; changed = true }

-- `"`, `\`, `/` and the letters of the short escapes.
unfoldable pub is_short_escape : ℕ → Bool
is_short_escape c =
    (c == quote)
    || (c == backslash)
    || (c == b'/')
    || (c == b'b')
    || (c == b'f')
    || (c == b'n')
    || (c == b'r')
    || (c == b't')

-- The arm of a backslash, on what follows it.
unfoldable pub escape_backslash : Text → Piece
unfolding is_short_escape is_hex
escape_backslash [] = escaped (backslash ∷ backslash ∷ [])
escape_backslash (c ∷ rest) =
    if is_short_escape c
    then record { pushed = backslash ∷ c ∷ []; skip = 1; in_string = true; changed = false }
    else if (c == b'u') && (leb 4 (length rest) && all is_hex (take 4 rest))
    then record {
      pushed = backslash ∷ c ∷ take 4 rest;
      skip = 5;
      in_string = true;
      changed = false;
    }
    else escaped (backslash ∷ backslash ∷ [])

unfoldable pub escape_step : Bool → ℕ → Text → Piece
unfolding escape_backslash hex_digit
escape_step in_string c rest =
    if not in_string
    then kept c (c == quote)
    else if c == quote
    then kept c false
    else if c == backslash
    then escape_backslash rest
    else if c == 10
    then escaped (backslash ∷ b'n' ∷ [])
    else if c == 13
    then escaped (backslash ∷ b'r' ∷ [])
    else if c == 9
    then escaped (backslash ∷ b't' ∷ [])
    else if ltb c 32
    then escaped (backslash ∷ b'u' ∷ b'0' ∷ b'0' ∷ hex_digit (c / 16) ∷ hex_digit (c % 16) ∷ [])
    else kept c true

-- The loop, from the rest of the text. Each iteration takes a character, so that the text's length
-- is enough fuel.
unfoldable pub escape_loop : ℕ → Bool → Text → Text × Bool
unfolding escape_step
escape_loop zero in_string xs = ([], false)
escape_loop (suc fuel) in_string [] = ([], false)
escape_loop (suc fuel) in_string (c ∷ rest) =
    let p = escape_step in_string c rest in
    let (out, changed) = escape_loop fuel p.in_string (drop p.skip rest) in
    (p.pushed ++ out, p.changed || changed)

unfoldable pub escape_string_contents : Text → Option Text
unfolding escape_loop
escape_string_contents input =
    let (out, changed) = escape_loop (length input) false input in
    if changed then some out else none

-- The variables of the scan in `close_truncation`; the stack's last entry comes first.
pub record Scan : Type 0 where
  pub stack : List ℕ
  pub in_string : Bool
  pub escape : Bool

abbrev pub scan_start : Scan
scan_start = record { stack = []; in_string = false; escape = false }

-- `stack.pop() != Some(open)` is a mismatch.
unfoldable pub scan_close : ℕ → List ℕ → Bool → Option Scan
scan_close opening [] escape = none
scan_close opening (top ∷ stack) escape =
    if top == opening
    then some (record { stack = stack; in_string = false; escape = escape })
    else none

unfoldable pub scan_inside : Scan → ℕ → Scan
scan_inside s c =
    if s.escape
    then record { stack = s.stack; in_string = true; escape = false }
    else if c == backslash
    then record { stack = s.stack; in_string = true; escape = true }
    else if c == quote
    then record { stack = s.stack; in_string = false; escape = false }
    else s

unfoldable pub scan_char : Scan → ℕ → Option Scan
unfolding scan_inside scan_close
scan_char s c =
    if s.in_string
    then some (scan_inside s c)
    else if c == quote
    then some (record { stack = s.stack; in_string = true; escape = s.escape })
    else if (c == b'{') || (c == b'[')
    then some (record { stack = c ∷ s.stack; in_string = false; escape = s.escape })
    else if c == b'}'
    then scan_close b'{' s.stack s.escape
    else if c == b']'
    then scan_close b'[' s.stack s.escape
    else some s

unfoldable pub scan : Text → Scan → Option Scan
unfolding scan_char
scan [] s = some s
scan (c ∷ rest) s = bind (scan_char s c) λ s'. scan rest s'

unfoldable pub trim_end : Text → Text
unfolding trim_start
trim_end s = reverse (trim_start (reverse s))

abbrev pub starts_with_comma : Text → Bool
starts_with_comma [] = false
starts_with_comma (c ∷ rest) = c == b','

-- `while repaired.ends_with(',') { repaired.pop(); … trim_end … }`, on the reversed text. Each
-- iteration takes a comma, so that the text's length is enough fuel.
unfoldable pub drop_commas : ℕ → Text → Text
unfolding trim_start
drop_commas zero back = back
drop_commas (suc fuel) back =
    let rest = drop_commas fuel (trim_start (drop 1 back)) in
    if starts_with_comma back then rest else back

unfoldable pub without_commas : Text → Text
unfolding drop_commas
without_commas s = reverse (drop_commas (length s) (reverse s))

unfoldable pub closing : ℕ → ℕ
closing opening = if opening == b'{' then b'}' else b']'

abbrev pub closings : List ℕ → Text
closings [] = []
closings (opening ∷ stack) = closing opening ∷ closings stack

-- The text that `close_truncation` reads again, after the scan of the input.
unfoldable pub repaired : Text → Scan → Text
unfolding trim_end without_commas closing
repaired input s =
    let body = trim_end input in
    (if s.in_string then body ++ quote ∷ [] else without_commas body) ++ closings s.stack

-- `parse` is `serde_json::from_str`.
module _ {Value : Type 0} (parse : Text → Option Value) where
  unfoldable pub close_scanned : Text → Scan → Option Value
  unfolding repaired
  close_scanned input s =
      if is_empty s.stack && not s.in_string then none else parse (repaired input s)

  unfoldable pub close_truncation : Text → Option Value
  unfolding scan close_scanned
  close_truncation input = bind (scan input scan_start) λ s. close_scanned input s

  unfoldable pub repair_escaped : Text → Option Text → Option Value
  unfolding close_truncation
  repair_escaped input none = close_truncation input
  repair_escaped input (some fixed) = elim (parse fixed) [
    | some value ↦ some value
    | none ↦ close_truncation fixed
  ]

  unfoldable pub try_conservative_repair : Text → Option Value
  unfolding trim escape_string_contents repair_escaped
  try_conservative_repair input =
      if is_blank (trim input) then none else repair_escaped input (escape_string_contents input)

  -- Without a value, the result is the error of the first parse. `empty_object` is `{}`.
  unfoldable pub parse_tool_arguments : (empty_object : Value) → Text → Option Value
  unfolding trim try_conservative_repair
  parse_tool_arguments empty_object raw =
      if is_blank (trim raw)
      then some empty_object
      else elim (parse raw) [ some value ↦ some value | none ↦ try_conservative_repair raw ]

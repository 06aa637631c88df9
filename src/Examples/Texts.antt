-- ===== src/Examples/Texts.antt =====
-- Repairs of tool arguments and decisions on tool calls, at concrete inputs.
use piscis_engine.Prelude.{
  contains, ◌≡◌, refl, true, false, none, some, [], ◌∷◌, ◌++◌, Text, text, starts_with, arith,
}
use piscis_engine.Llm.Repair.{
  quote, escape_loop, escape_string_contents, scan, trim_end, repaired, Scan,
}
use piscis_engine.Llm.Repair.Escaped.{escape_string_contents_stable}
use piscis_engine.Llm.Repair.Balanced.{IsBalanced, repaired-IsBalanced}
use piscis_engine.Llm.ErrorClass.{extract_http_status, classify_error}
use piscis_engine.Llm.ErrorClass.Retries.{IsActedOn, classify_error-IsActedOn}
use piscis_engine.Policy.{Platform}
use piscis_engine.Policy.Decision.{Input, dev, strict}
use piscis_engine.Policy.Gate.{PolicyGate, check_tool_call}
use piscis_engine.Policy.Modes.{IsMilder, with_mode_and_flag, check_tool_call_mono}

-- `"C:\d`, a tab, a control character and `"`.
abbrev raw : Text
raw = text "\"C:\\d" ++ 9 ∷ 1 ∷ quote ∷ []

abbrev fixed : Text
fixed = text "\"C:\\\\d\\t\\u0001\""

escape_string_contents_stable_example :
    (escape_string_contents fixed ≡ none) × ((escape_loop 20 false raw).0 ≡ fixed)
unfolding escape_string_contents
escape_string_contents_stable_example = escape_string_contents_stable raw 20 refl (omega arith)

-- `{"items":["a","b` and white space.
abbrev cut_off : Text
cut_off = text "{\"items\":[\"a\",\"b  "

abbrev cut_scan : Scan
cut_scan = record { stack = b'[' ∷ b'{' ∷ []; in_string = true; escape = false }

repaired-IsBalanced_example : IsBalanced (repaired cut_off cut_scan)
unfolding scan mathlib.Core.Option.bind trim_end
repaired-IsBalanced_example =
    repaired-IsBalanced cut_off {s = cut_scan} {t = cut_scan} refl refl refl

-- A pattern matches the texts that hold it, and a path is a text that is its own canonical path.
abbrev platform : Platform
platform = record {
  is_match = λ pattern s. contains s pattern;
  replace_all = λ pattern s by. s;
  to_lowercase = λ s. s;
  base64_text = λ s. none;
  FilePath = Text;
  to_path = λ s. s;
  is_absolute = λ p. starts_with p (text "/");
  join = λ p q. p ++ text "/" ++ q;
  parent = λ p. none;
  file_name = λ p. none;
  no_name = [];
  canonicalize = λ p. some p;
  starts_with_path = starts_with;
  comparable = λ p. p;
  display_path = λ p. p;
}

abbrev gate : PolicyGate platform
gate = record {
  workspace_root = text "/w";
  mode = dev;
  tool_rate_limit_per_minute = 120;
  allow_outside_workspace = true;
  extra_read_roots = [];
}

abbrev input : Input
input name = some (text "/etc/passwd")

check_tool_call_mono_example : IsMilder (check_tool_call platform gate (text "file_read") input) (
    check_tool_call platform
      (with_mode_and_flag platform gate strict false)
      (text "file_read")
      input)
check_tool_call_mono_example =
    check_tool_call_mono platform gate strict false (text "file_read") input (omega arith) refl

abbrev rate_message : Text
rate_message = text "api error 429 too many requests: connection closed"

abbrev lower : Text → Text
lower s = s

classify_error-IsActedOn_example :
    IsActedOn
      (lower rate_message)
      (extract_http_status (lower rate_message))
      (classify_error lower rate_message)
unfolding piscis_engine.Llm.ErrorClass.is_retryable classify_error contains starts_with
    piscis_engine.Llm.ErrorClass.is_fallback_eligible
classify_error-IsActedOn_example = classify_error-IsActedOn lower rate_message refl

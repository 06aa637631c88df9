-- ===== src/Policy/Injection.antt =====
-- security/injection.rs: the risk score of a text.
use piscis_engine.Prelude.{
  byte_length, contains, ℕ, ◌+◌, ◌^◌, min, Bool, ◌&&◌, ◌||◌, Option, none, some, List, [], ◌∷◌, leb,
  ltb, ◌==◌, if◌then◌else◌, map, ◌-◌, keep, count, Text, text,
}
use piscis_engine.Policy.{Platform}

-- A pattern, its name and its base score.
pub record Pattern : Type 0 where
  pub regex : Text
  pub name : Text
  pub base_score : ℕ

abbrev pattern_of : Text → Text → ℕ → Pattern
pattern_of regex name base_score = record { regex = regex; name = name; base_score = base_score }

unfoldable pub injection_patterns : List Pattern
injection_patterns =
    pattern_of (text "(?i)ignore\\s+(all\\s+)?previous\\s+instructions")
      (text "instruction_override") 30
    ∷ pattern_of (text "(?i)forget\\s+(everything|all|your\\s+instructions)") (text "memory_wipe")
        30
    ∷ pattern_of
        (text "(?i)(do\\s+not|don'?t)\\s+follow\\s+(your|the)\\s+(rules|instructions|guidelines)")
        (text "rule_bypass") 25
    ∷ pattern_of (text "(?i)you\\s+are\\s+now\\s+(a|an)\\s+") (text "role_hijack") 25
    ∷ pattern_of (text "(?i)act\\s+as\\s+(if\\s+you\\s+(are|were)\\s+)?a(n)?\\s+")
        (text "persona_switch") 20
    ∷ pattern_of (text "(?i)pretend\\s+(you\\s+are|to\\s+be)\\s+") (text "persona_switch") 20
    ∷ pattern_of (text "(?i)system\\s*:\\s*") (text "system_prompt_injection") 20
    ∷ pattern_of (text "(?i)\\[SYSTEM\\]|\\[INST\\]|<\\|im_start\\|>|<\\|system\\|>")
        (text "format_injection") 20
    ∷ pattern_of (text "(?i)base64\\s*:\\s*[A-Za-z0-9+/=]{20,}") (text "base64_bypass") 15
    ∷ pattern_of (text "(?i)rot13\\s*[\\(:]") (text "rot13_bypass") 15
    ∷ pattern_of (text "(?:[A-Za-z0-9+/]{60,})={0,2}") (text "long_base64_blob") 10
    ∷ pattern_of (text "\\p{Cf}|\\u{200B}|\\u{200C}|\\u{200D}|\\u{FEFF}") (text "zero_width_chars")
        15
    ∷ pattern_of (text "(?i)<\\s*script\\s*>") (text "script_tag") 10
    ∷ pattern_of (text "(?i)javascript\\s*:") (text "js_protocol") 10
    ∷ pattern_of (text "(?i)\\bprompt\\s+injection\\b") (text "self_reference") 10
    ∷ pattern_of
        (text
          "(?i)(send|email|post|exfiltrate|leak)\\s+(my\\s+)?(api[_ ]?key|password|secret|token|credential)")
        (text "exfiltration_attempt") 20
    ∷ pattern_of (text "(?i)(reveal|print|show|output|display)\\s+(your\\s+)?(system\\s+)?prompt")
        (text "prompt_extraction") 25
    ∷ []

abbrev pub detection_threshold : ℕ
detection_threshold = 20

abbrev pub max_score : ℕ
max_score = 100

abbrev u32_max : ℕ
u32_max = 2 ^ 32 - 1

pub record InjectionDetection : Type 0 where
  pub detected : Bool
  pub patterns : List Text
  pub score : ℕ
  pub severity : Text

unfoldable pub score_to_severity : ℕ → Text
score_to_severity score =
    if leb score 9
    then text "none"
    else if leb score 19
    then text "low"
    else if leb score 39
    then text "medium"
    else if leb score 69
    then text "high"
    else text "critical"

unfoldable pub is_base64_char : ℕ → Bool
is_base64_char c =
    (leb b'0' c && leb c b'9')
    || (leb b'A' c && leb c b'Z')
    || (leb b'a' c && leb c b'z')
    || (c == b'+')
    || (c == b'/')
    || (c == b'=')

unfoldable pub keywords : List Text
keywords =
    text "ignore"
    ∷ text "override"
    ∷ text "bypass"
    ∷ text "jailbreak"
    ∷ text "forget"
    ∷ text "disregard"
    ∷ text "disable"
    ∷ text "pretend"
    ∷ text "roleplay"
    ∷ text "sudo"
    ∷ []

module _ (os : Platform) where
  unfoldable pub decode_common_encodings : Text → Option Text
  unfolding byte_length is_base64_char
  decode_common_encodings s =
      let cleaned = keep is_base64_char s in
      if ltb (byte_length s) 40
      then none
      else if ltb (byte_length cleaned) 32
      then none
      else os.base64_text cleaned

  unfoldable pub compute_density_bonus : Text → ℕ
  unfolding contains keywords
  compute_density_bonus s =
      let lower = os.to_lowercase s in
      let hits = count (λ keyword. contains lower keyword) keywords in
      if leb hits 1 then 0 else if hits == 2 then 5 else if leb hits 4 then 10 else 15

  unfoldable pub haystack : Text → Text
  unfolding decode_common_encodings
  haystack s = elim (decode_common_encodings s) [ none ↦ s | some decoded ↦ decoded ]

  unfoldable pub is_suspect : Text → Pattern → Bool
  unfolding haystack
  is_suspect s p = os.is_match p.regex s || os.is_match p.regex (haystack s)

  -- `score.saturating_add`, over the patterns that match.
  unfoldable pub base_scores : List Pattern → ℕ → ℕ
  base_scores [] score = score
  base_scores (p ∷ patterns) score = base_scores patterns (min (score + p.base_score) u32_max)

  unfoldable pub detection_of : List Pattern → ℕ → InjectionDetection
  unfolding base_scores score_to_severity
  detection_of suspects bonus =
      let score = min (min (base_scores suspects 0 + bonus) u32_max) max_score in
      record {
        detected = leb detection_threshold score;
        patterns = map (λ p. p.name) suspects;
        score = score;
        severity = score_to_severity score;
      }

  unfoldable pub detect_injection : Text → InjectionDetection
  unfolding injection_patterns is_suspect compute_density_bonus detection_of
  detect_injection s =
      detection_of (keep (is_suspect s) injection_patterns) (compute_density_bonus s)

-- ===== src/Policy/Gate.antt =====
-- policy/gate.rs: the decision on a tool call.
use piscis_engine.Prelude.{
  ℕ, Bool, false, ◌||◌, Option, none, some, List, [], ◌∷◌, ◌++◌, if◌then◌else◌, map, any, find,
  Text, text, text_eq, eq_ignore_case,
}
use piscis_engine.Policy.{Platform}
use piscis_engine.Policy.Injection.{InjectionDetection, detect_injection}
use piscis_engine.Policy.Decision.{
  PolicyDecision, PolicyMode, blocked_patterns, warn_patterns, blocked_url_patterns,
  warn_url_patterns, blocked_process_titles, sensitive_uia_classes, Input, first_of, text_or_empty,
  join_names, by_mode, unless_dev, or_decide, decide_on, command_blocked, command_denied,
  command_warned, url_blocked, url_denied, url_warned, is_one_of, file_tools, shell_tools,
  clipboard_warning, cookie_decision, allow, deny, warn, strict, balanced, dev,
}

module _ (os : Platform) where
  pub record PolicyGate : Type 0 where
    pub workspace_root : os.FilePath
    pub mode : PolicyMode
    pub tool_rate_limit_per_minute : ℕ
    pub allow_outside_workspace : Bool
    pub extra_read_roots : List os.FilePath

  unfoldable pub parse_mode : Text → PolicyMode
  parse_mode mode =
      let m = os.to_lowercase mode in
      if text_eq m (text "strict") then strict else if text_eq m (text "dev") then dev else balanced

  unfoldable pub new_gate : os.FilePath → PolicyGate
  new_gate workspace_root = record {
    workspace_root = workspace_root;
    mode = balanced;
    tool_rate_limit_per_minute = 120;
    allow_outside_workspace = false;
    extra_read_roots = [];
  }

  unfoldable pub with_profile_and_flags : os.FilePath → Text → ℕ → Bool → PolicyGate
  unfolding parse_mode
  with_profile_and_flags workspace_root mode limit allow_outside = record {
    workspace_root = workspace_root;
    mode = parse_mode mode;
    tool_rate_limit_per_minute = limit;
    allow_outside_workspace = allow_outside;
    extra_read_roots = [];
  }

  abbrev pub or_path : Option os.FilePath → os.FilePath → os.FilePath
  or_path none p = p
  or_path (some q) p = q

  unfoldable pub with_extra_read_roots : PolicyGate → List os.FilePath → PolicyGate
  with_extra_read_roots gate roots = record {
    workspace_root = gate.workspace_root;
    mode = gate.mode;
    tool_rate_limit_per_minute = gate.tool_rate_limit_per_minute;
    allow_outside_workspace = gate.allow_outside_workspace;
    extra_read_roots = map (λ r. os.comparable (or_path (os.canonicalize r) r)) roots;
  }

  -- The file's own canonical path, or its name below its parent's.
  unfoldable pub canonical_path : os.FilePath → os.FilePath
  canonical_path abs =
      or_path (os.canonicalize abs) (elim (os.canonicalize (or_path (os.parent abs) abs)) [
        | none ↦ abs
        | some c ↦ os.join c (or_path (os.file_name abs) os.no_name)
      ])

  unfoldable pub outside_note : Text → os.FilePath → Text
  outside_note path ws =
      text "Path '" ++ path ++ text "' is outside the workspace root '" ++ os.display_path ws

  unfoldable pub check_path : PolicyGate → Text → PolicyDecision
  unfolding canonical_path outside_note
  check_path gate path =
      let p = os.to_path path in
      let abs = if os.is_absolute p then p else os.join gate.workspace_root p in
      let canonical = os.comparable (canonical_path abs) in
      let ws = os.comparable (or_path (os.canonicalize gate.workspace_root) gate.workspace_root) in
      if os.starts_with_path canonical ws
        || any (os.starts_with_path canonical) gate.extra_read_roots
      then allow
      else if gate.allow_outside_workspace
      then warn (
          0x26a0 ∷ 0xfe0f ∷ text " "
          ++ outside_note path ws
          ++ text "' — proceeding because \"Allow outside workspace\" is enabled.")
      else deny (
          outside_note path ws
          ++ text
              "'. Enable \"Allow outside workspace\" in Settings to access files outside the workspace.")

  -- The first pattern that the text matches.
  unfoldable pub matching : List Text → Text → Option Text
  matching patterns s = find (λ p. os.is_match p s) patterns

  unfoldable pub deny_matching : List Text → Text → (Text → Text) → Option PolicyDecision
  unfolding matching
  deny_matching patterns s message = elim (matching patterns s) [
    | none ↦ none
    | some p ↦ some (deny (message p))
  ]

  -- The decision on the first pattern that warns.
  abbrev pub warned_by : PolicyMode → Option Text → (denied warned : Text → Text) → PolicyDecision
  warned_by mode none denied warned = allow
  warned_by mode (some p) denied warned = by_mode mode (deny (denied p)) (warn (warned p))

  -- The two loops, over patterns that block and patterns that warn, with their messages.
  unfoldable pub check_patterns :
      PolicyGate
      → (blocking warning : List Text) → Text
      → (blocked denied warned : Text → Text) → PolicyDecision
  unfolding matching deny_matching
  check_patterns gate blocking warning s blocked denied warned = unless_dev gate.mode (
      or_decide (deny_matching blocking s blocked)
        (warned_by gate.mode (matching warning s) denied warned))

  unfoldable pub check_command : PolicyGate → Text → PolicyDecision
  unfolding blocked_patterns warn_patterns check_patterns
  check_command gate command =
      check_patterns gate blocked_patterns warn_patterns command command_blocked command_denied
        command_warned

  unfoldable pub check_url : PolicyGate → Text → PolicyDecision
  unfolding blocked_url_patterns warn_url_patterns check_patterns
  check_url gate url =
      check_patterns gate blocked_url_patterns warn_url_patterns url (url_blocked url)
        (url_denied url) (url_warned url)

  unfoldable pub check_class : Text → PolicyDecision
  unfolding sensitive_uia_classes
  check_class control =
      if any (eq_ignore_case control) sensitive_uia_classes
      then warn (text "Typing into potentially sensitive control class: '" ++ control ++ text "'")
      else allow

  unfoldable pub check_window : Text → Text → Option PolicyDecision
  unfolding blocked_process_titles deny_matching
  check_window action title = deny_matching blocked_process_titles title (λ p.
      text "UIA action '" ++ action ++ text "' blocked on sensitive window: '" ++ title ++ text "'")

  unfoldable pub check_uia_action : Text → Input → PolicyDecision
  unfolding check_window check_class
  check_uia_action action input =
      or_decide
        (elim (first_of (input (text "window_title")) (input (text "name"))) [
          | none ↦ none
          | some title ↦ check_window action title
        ])
        (if text_eq action (text "type")
          then decide_on (input (text "class_name")) check_class
          else allow)

  unfoldable pub check_com_action : PolicyGate → Text → Input → PolicyDecision
  unfolding check_command
  check_com_action gate action input =
      if text_eq action (text "clipboard_write")
      then clipboard_warning
      else if text_eq action (text "shell_run")
      then decide_on (input (text "command")) (check_command gate)
      else allow

  unfoldable pub check_browser_js : PolicyGate → PolicyDecision
  check_browser_js gate =
      by_mode gate.mode (deny (text "Executing JavaScript in browser is disabled in strict mode"))
        (warn (text "Executing JavaScript in browser — ensure the code is safe"))

  unfoldable pub injection_note : InjectionDetection → Text
  unfolding join_names
  injection_note d =
      text "Potential prompt injection detected (patterns: " ++ join_names d.patterns ++ text ")."

  unfoldable pub check_user_input : PolicyGate → Text → PolicyDecision
  unfolding detect_injection injection_note
  check_user_input gate s =
      let detection = detect_injection os s in
      if detection.detected
      then by_mode gate.mode (deny (injection_note detection))
          (warn (injection_note detection ++ text " Proceeding with caution."))
      else allow

  unfoldable pub check_query : Text → PolicyDecision
  unfolding detect_injection join_names
  check_query query =
      let injection = detect_injection os query in
      if injection.detected
      then warn (
          text "Search query may contain injected content ("
          ++ join_names injection.patterns
          ++ text ")")
      else allow

  unfoldable pub check_browser : PolicyGate → Input → PolicyDecision
  unfolding check_url check_browser_js
  check_browser gate input =
      let action = text_or_empty (input (text "action")) in
      if text_eq action (text "navigate")
      then decide_on (input (text "url")) (check_url gate)
      else if text_eq action (text "eval_js")
      then decide_on (input (text "js")) (λ js. check_browser_js gate)
      else cookie_decision action

  unfoldable pub check_tool_call : PolicyGate → Text → Input → PolicyDecision
  unfolding check_path check_command check_browser check_query check_uia_action check_com_action
  check_tool_call gate tool input =
      if is_one_of tool file_tools
      then decide_on (first_of (input (text "path")) (input (text "file_path"))) (check_path gate)
      else if is_one_of tool shell_tools
      then decide_on
          (first_of (first_of (input (text "command")) (input (text "cmd")))
            (input (text "ps_command")))
          (check_command gate)
      else if text_eq tool (text "browser")
      then check_browser gate input
      else if text_eq tool (text "web_search")
      then decide_on (input (text "query")) check_query
      else if text_eq tool (text "uia")
      then check_uia_action (text_or_empty (input (text "action"))) input
      else if text_eq tool (text "com")
      then check_com_action gate (text_or_empty (input (text "action"))) input
      else allow

  unfoldable pub secret_patterns : List Text
  secret_patterns =
      text "(?i)(api[_-]?key|token|secret|password)\\s*[:=]\\s*['\"]?[A-Za-z0-9_\\-\\.]{8,}"
      ∷ text "(?i)Bearer\\s+[A-Za-z0-9_\\-\\.]+"
      ∷ []

  abbrev pub redact_all : List Text → Text → Text
  redact_all [] s = s
  redact_all (p ∷ patterns) s = redact_all patterns (os.replace_all p s (text "[REDACTED]"))

  unfoldable pub redact_text : Text → Text
  unfolding secret_patterns
  redact_text s = redact_all secret_patterns s

-- ===== src/Policy/Decision.antt =====
-- policy/gate.rs: the decisions, the modes, and the constant patterns and messages.
use piscis_engine.Prelude.{
  Bool, Option, none, some, List, [], ◌∷◌, ◌++◌, if◌then◌else◌, any, Text, text, text_eq,
}

pub data PolicyDecision : Type 0 where
  allow : PolicyDecision
  deny : Text → PolicyDecision
  warn : Text → PolicyDecision

pub data PolicyMode : Type 0 where
  strict : PolicyMode
  balanced : PolicyMode
  dev : PolicyMode

unfoldable pub blocked_patterns : List Text
blocked_patterns =
    text "(?i)^\\s*format\\s+[a-z]:"
    ∷ text "(?i)del\\s+/[fsq]+\\s+[a-z]:\\\\"
    ∷ text "(?i)rd\\s+/[sq]+\\s+[a-z]:\\\\"
    ∷ text "(?i)reg\\s+(delete|add)\\s+HKLM\\\\SYSTEM"
    ∷ text "(?i)shutdown\\s+(/s|/r|-h|-r)"
    ∷ text "(?i)rm\\s+-rf\\s+/"
    ∷ text "(?i)dd\\s+if=.*of=/dev/(sd|hd|nvme)"
    ∷ text "(?i)mkfs\\s+"
    ∷ text "(?i):\\(\\)\\s*\\{.*\\};\\s*:"
    ∷ []

unfoldable pub warn_patterns : List Text
warn_patterns =
    text "(?i)pip\\s+install"
    ∷ text "(?i)npm\\s+install\\s+-g"
    ∷ text "(?i)curl\\s+.*\\|\\s*(bash|sh|powershell)"
    ∷ text "(?i)powershell\\s+-EncodedCommand"
    ∷ text "(?i)Invoke-Expression"
    ∷ text "(?i)iex\\s+"
    ∷ text "(?i)Set-ExecutionPolicy\\s+Unrestricted"
    ∷ []

unfoldable pub blocked_url_patterns : List Text
blocked_url_patterns =
    text "(?i)^chrome://"
    ∷ text "(?i)^chrome-extension://"
    ∷ text "(?i)^edge://"
    ∷ text "(?i)^about:"
    ∷ text "(?i)^file://"
    ∷ text "(?i)^https?://(localhost|127\\.0\\.0\\.1|0\\.0\\.0\\.0)(:|/)"
    ∷ text "(?i)^https?://10\\.\\d+\\.\\d+\\.\\d+"
    ∷ text "(?i)^https?://192\\.168\\.\\d+\\.\\d+"
    ∷ text "(?i)^https?://172\\.(1[6-9]|2\\d|3[01])\\.\\d+\\.\\d+"
    ∷ []

unfoldable pub warn_url_patterns : List Text
warn_url_patterns =
    text "(?i)(bank|paypal|stripe|payment|checkout)"
    ∷ text "(?i)(login|signin|auth|oauth|password)"
    ∷ []

unfoldable pub blocked_process_titles : List Text
blocked_process_titles =
    text "(?i)Registry Editor"
    ∷ text "(?i)User Account Control"
    ∷ text "(?i)Windows Security"
    ∷ text "(?i)BitLocker"
    ∷ []

unfoldable pub sensitive_uia_classes : List Text
sensitive_uia_classes =
    text "PasswordBox"
    ∷ text "PasswordEdit"
    ∷ text "Credential Dialog Xaml Host"
    ∷ text "TaskManagerWindow"
    ∷ []

-- `input[name].as_str()`.
abbrev pub Input : Type 0
Input = Text → Option Text

-- `a.or(b)`.
abbrev pub first_of : Option Text → Option Text → Option Text
first_of none b = b
first_of (some s) b = some s

abbrev pub text_or_empty : Option Text → Text
text_or_empty none = []
text_or_empty (some s) = s

-- `patterns.join(", ")`.
unfoldable pub join_names : List Text → Text
join_names [] = []
join_names (n ∷ []) = n
join_names (n ∷ m ∷ names) = n ++ text ", " ++ join_names (m ∷ names)

-- The two arms of a mode test that is not `Dev`'s.
abbrev pub by_mode : PolicyMode → PolicyDecision → PolicyDecision → PolicyDecision
by_mode strict when_strict otherwise = when_strict
by_mode balanced when_strict otherwise = otherwise
by_mode dev when_strict otherwise = otherwise

-- `if self.mode == PolicyMode::Dev { return PolicyDecision::Allow; }`.
abbrev pub unless_dev : PolicyMode → PolicyDecision → PolicyDecision
unless_dev strict d = d
unless_dev balanced d = d
unless_dev dev d = allow

abbrev pub or_decide : Option PolicyDecision → PolicyDecision → PolicyDecision
or_decide none later = later
or_decide (some d) later = d

abbrev pub decide_on : Option Text → (Text → PolicyDecision) → PolicyDecision
decide_on none check = allow
decide_on (some s) check = check s

-- The messages on a pattern.
abbrev pub command_blocked : Text → Text
command_blocked p = text "Command matches blocked pattern: " ++ p

abbrev pub command_denied : Text → Text
command_denied p = text "Command denied in strict mode: " ++ p

abbrev pub command_warned : Text → Text
command_warned p = text "Command matches warning pattern: " ++ p

abbrev pub url_blocked : Text → Text → Text
url_blocked url p =
    text "URL blocked by policy: '" ++ url ++ text "' matches pattern '" ++ p ++ text "'"

abbrev pub url_denied : Text → Text → Text
url_denied url p = text "Sensitive URL denied in strict mode: " ++ url

abbrev pub url_warned : Text → Text → Text
url_warned url p = text "Navigating to potentially sensitive URL: " ++ url

abbrev pub is_one_of : Text → List Text → Bool
is_one_of s names = any (text_eq s) names

abbrev pub file_tools : List Text
file_tools = text "file_read" ∷ text "file_write" ∷ text "file_edit" ∷ []

abbrev pub shell_tools : List Text
shell_tools = text "shell" ∷ text "bash" ∷ text "powershell" ∷ text "powershell_query" ∷ []

abbrev pub clipboard_warning : PolicyDecision
clipboard_warning = warn (text "Writing to clipboard — this will replace current clipboard content")

abbrev pub cookie_decision : Text → PolicyDecision
cookie_decision action =
    if is_one_of action (text "get_cookies" ∷ text "set_cookie" ∷ text "clear_cookies" ∷ [])
    then warn (text "Cookie operation in browser — may affect authentication/session state")
    else allow

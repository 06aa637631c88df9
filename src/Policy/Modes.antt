-- ===== src/Policy/Modes.antt =====
-- How the decisions of policy/gate.rs depend on the mode and on the flag for outside paths.
use piscis_engine.Prelude.{
  ◌≡◌, ℕ, ◌≤◌, Bool, true, false, not, ◌||◌, Option, none, some, List, Text, text, text_eq,
  if◌then◌else◌, arith,
}
use piscis_engine.Policy.{Platform}
use piscis_engine.Policy.Decision.{
  PolicyDecision, allow, deny, warn, PolicyMode, strict, balanced, dev, Input, by_mode, unless_dev,
  or_decide, decide_on, text_or_empty, blocked_patterns, warn_patterns, blocked_url_patterns,
  warn_url_patterns, command_blocked, command_denied, command_warned, url_blocked, url_denied,
  url_warned, is_one_of, clipboard_warning, cookie_decision, file_tools, shell_tools,
}
use piscis_engine.Policy.Gate.{
  PolicyGate, matching, deny_matching, warned_by, check_patterns, check_path, check_command,
  check_url, check_com_action, check_browser_js, check_browser, check_tool_call, check_query,
  check_uia_action,
}

-- How much a decision stands in the way.
abbrev pub severity : PolicyDecision → ℕ
severity allow = 0
severity (warn s) = 1
severity (deny s) = 2

abbrev pub mode_rank : PolicyMode → ℕ
mode_rank dev = 0
mode_rank balanced = 1
mode_rank strict = 2

-- The second decision stands in the way at least as much as the first.
pub record IsMilder (d e : PolicyDecision) : Type 0 where
  pub le : severity d ≤ severity e

by_mode_mono :
    (m n : PolicyMode) (s t : Text)
    → mode_rank m ≤ mode_rank n
    → IsMilder (by_mode m (deny s) (warn t)) (by_mode n (deny s) (warn t))
by_mode_mono strict strict s t h = record { le = omega arith }
by_mode_mono strict balanced s t h = record { le = omega (arith, h) }
by_mode_mono strict dev s t h = record { le = omega (arith, h) }
by_mode_mono balanced n s t h = record { le = ground (arith, h) }
by_mode_mono dev n s t h = record { le = ground (arith, h) }

unless_dev_mono :
    (m n : PolicyMode) (d e : PolicyDecision)
    → mode_rank m ≤ mode_rank n
    → IsMilder d e
    → IsMilder (unless_dev m d) (unless_dev n e)
unless_dev_mono dev n d e h k = record { le = omega arith }
unless_dev_mono strict n d e h k = record { le = ground (arith, h, k.le) }
unless_dev_mono balanced n d e h k = record { le = ground (arith, h, k.le) }

module _ (os : Platform) where
  -- The gate with another mode and another flag.
  abbrev pub with_mode_and_flag : PolicyGate os → PolicyMode → Bool → PolicyGate os
  with_mode_and_flag gate mode allow_outside = record {
    workspace_root = gate.workspace_root;
    mode = mode;
    tool_rate_limit_per_minute = gate.tool_rate_limit_per_minute;
    allow_outside_workspace = allow_outside;
    extra_read_roots = gate.extra_read_roots;
  }

  or_decide_mono :
      (o : Option PolicyDecision) (d e : PolicyDecision)
      → IsMilder d e
      → IsMilder (or_decide o d) (or_decide o e)
  or_decide_mono none d e h = h
  or_decide_mono (some x) d e h = record { le = omega arith }

  warned_by_mono :
      (m n : PolicyMode) (o : Option Text) (f g : Text → Text)
      → mode_rank m ≤ mode_rank n
      → IsMilder (warned_by os m o f g) (warned_by os n o f g)
  warned_by_mono m n none f g h = record { le = omega arith }
  warned_by_mono m n (some p) f g h = by_mode_mono m n (f p) (g p) h

  check_patterns_mono :
      (gate : PolicyGate os) (mode : PolicyMode) (b : Bool) (blocking warning : List Text)
      (s : Text) (f g h : Text → Text)
      → mode_rank gate.mode ≤ mode_rank mode
      → IsMilder
          (check_patterns os gate blocking warning s f g h)
          (check_patterns os (with_mode_and_flag gate mode b) blocking warning s f g h)
  unfolding check_patterns
  check_patterns_mono gate mode b blocking warning s f g h r =
      unless_dev_mono gate.mode mode _ _ r (
        or_decide_mono (deny_matching os blocking s f) _ _
          (warned_by_mono gate.mode mode (matching os warning s) g h r))

  check_command_mono :
      (gate : PolicyGate os) (mode : PolicyMode) (b : Bool) (s : Text)
      → mode_rank gate.mode ≤ mode_rank mode
      → IsMilder (check_command os gate s) (check_command os (with_mode_and_flag gate mode b) s)
  unfolding check_command
  check_command_mono gate mode b s r =
      check_patterns_mono gate mode b blocked_patterns warn_patterns s command_blocked
        command_denied command_warned r

  check_url_mono :
      (gate : PolicyGate os) (mode : PolicyMode) (b : Bool) (s : Text)
      → mode_rank gate.mode ≤ mode_rank mode
      → IsMilder (check_url os gate s) (check_url os (with_mode_and_flag gate mode b) s)
  unfolding check_url
  check_url_mono gate mode b s r =
      check_patterns_mono gate mode b blocked_url_patterns warn_url_patterns s (url_blocked s)
        (url_denied s) (url_warned s) r

  outside_mono :
      (inside x y : Bool) (s t u v : Text)
      → (not y || x) ≡ true
      → IsMilder
          (if inside then allow else if x then warn s else deny t)
          (if inside then allow else if y then warn u else deny v)
  outside_mono inside x y s t u v h = record { le = ground (arith, h) }

  check_path_mono :
      (gate : PolicyGate os) (mode : PolicyMode) (b : Bool) (s : Text)
      → (not b || gate.allow_outside_workspace) ≡ true
      → IsMilder (check_path os gate s) (check_path os (with_mode_and_flag gate mode b) s)
  unfolding check_path
  check_path_mono gate mode b s h = outside_mono _ gate.allow_outside_workspace b _ _ _ _ h

  check_browser_js_mono :
      (gate : PolicyGate os) (mode : PolicyMode) (b : Bool)
      → mode_rank gate.mode ≤ mode_rank mode
      → IsMilder (check_browser_js os gate) (check_browser_js os (with_mode_and_flag gate mode b))
  unfolding check_browser_js
  check_browser_js_mono gate mode b r = by_mode_mono gate.mode mode _ _ r

  refl-IsMilder : (d : PolicyDecision) → IsMilder d d
  refl-IsMilder d = record { le = omega arith }

  if-IsMilder :
      (b : Bool) (d d' e e' : PolicyDecision)
      → IsMilder d e
      → IsMilder d' e'
      → IsMilder (if b then d else d') (if b then e else e')
  if-IsMilder true d d' e e' h k = h
  if-IsMilder false d d' e e' h k = k

  decide_on-IsMilder :
      (o : Option Text) (f g : Text → PolicyDecision)
      → ((s : Text) → IsMilder (f s) (g s))
      → IsMilder (decide_on o f) (decide_on o g)
  decide_on-IsMilder none f g h = refl-IsMilder allow
  decide_on-IsMilder (some s) f g h = h s

  check_com_action_mono :
      (gate : PolicyGate os) (mode : PolicyMode) (b : Bool) (action : Text) (input : Input)
      → mode_rank gate.mode ≤ mode_rank mode
      → IsMilder
          (check_com_action os gate action input)
          (check_com_action os (with_mode_and_flag gate mode b) action input)
  unfolding check_com_action
  check_com_action_mono gate mode b action input r =
      if-IsMilder (text_eq action (text "clipboard_write")) _ _ _ _
        (refl-IsMilder clipboard_warning)
        (if-IsMilder (text_eq action (text "shell_run")) _ _ _ _
          (decide_on-IsMilder (input (text "command")) _ _
            (λ s. check_command_mono gate mode b s r))
          (refl-IsMilder allow))

  check_browser_mono :
      (gate : PolicyGate os) (mode : PolicyMode) (b : Bool) (input : Input)
      → mode_rank gate.mode ≤ mode_rank mode
      → IsMilder
          (check_browser os gate input)
          (check_browser os (with_mode_and_flag gate mode b) input)
  unfolding check_browser
  check_browser_mono gate mode b input r =
      let action = text_or_empty (input (text "action")) in
      if-IsMilder (text_eq action (text "navigate")) _ _ _ _
        (decide_on-IsMilder (input (text "url")) _ _ (λ s. check_url_mono gate mode b s r))
        (if-IsMilder (text_eq action (text "eval_js")) _ _ _ _
          (decide_on-IsMilder (input (text "js")) _ _ (λ s. check_browser_js_mono gate mode b r))
          (refl-IsMilder (cookie_decision action)))

  -- A gate in a mode at least as strict, that allows outside paths only if the other does, decides no
  -- tool call more mildly: what the other denies it denies, and what the other warns of it does not
  -- allow in silence.
  pub check_tool_call_mono :
      (gate : PolicyGate os) (mode : PolicyMode) (allow_outside : Bool) (tool : Text)
      (input : Input)
      → mode_rank gate.mode ≤ mode_rank mode
      → (not allow_outside || gate.allow_outside_workspace) ≡ true
      → IsMilder
          (check_tool_call os gate tool input)
          (check_tool_call os (with_mode_and_flag gate mode allow_outside) tool input)
  unfolding check_tool_call
  check_tool_call_mono gate mode b tool input r h =
      if-IsMilder (is_one_of tool file_tools) _ _ _ _
        (decide_on-IsMilder _ _ _ (λ s. check_path_mono gate mode b s h))
        (if-IsMilder (is_one_of tool shell_tools) _ _ _ _
          (decide_on-IsMilder _ _ _ (λ s. check_command_mono gate mode b s r))
          (if-IsMilder (text_eq tool (text "browser")) _ _ _ _
            (check_browser_mono gate mode b input r)
            (if-IsMilder (text_eq tool (text "web_search")) _ _ _ _
              (refl-IsMilder (decide_on (input (text "query")) (check_query os)))
              (if-IsMilder (text_eq tool (text "uia")) _ _ _ _
                (refl-IsMilder (check_uia_action os (text_or_empty (input (text "action"))) input))
                (if-IsMilder (text_eq tool (text "com")) _ _ _ _
                  (check_com_action_mono gate mode b (text_or_empty (input (text "action"))) input
                    r)
                  (refl-IsMilder allow))))))

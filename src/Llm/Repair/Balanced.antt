-- ===== src/Llm/Repair/Balanced.antt =====
-- What `close_truncation` of llm/json_repair.rs reads again.
use mathlib.Core.Path.{sym}
use mathlib.Core.Option.{bind, some-injective, none-ne-some}
use piscis_engine.Prelude.{
  ◌≡◌, refl, ap, ◌∙◌, inl, inr, Bool-cases, Option-cases, ℕ, Bool, true, false, ◌&&◌, ◌||◌, Option,
  none, some, List, [], ◌∷◌, ◌++◌, ◌==◌, if◌then◌else◌, Text, arith,
}
use piscis_engine.Llm.Repair.{
  quote, Scan, scan_start, scan_close, scan_inside, scan_char, scan, trim_end, without_commas,
  closing, closings, repaired,
}
use piscis_engine.Llm.Repair.Trimmed.{scan-append, trim_end-scan, without_commas-scan}

unfoldable are_open : List ℕ → Bool
are_open [] = true
are_open (c ∷ stack) = ((c == b'{') || (c == b'[')) && are_open stack

-- A scan that goes on has only opening brackets on its stack.
record Opens (o : Option Scan) : Type 0 where
  pub stack : (s : Scan) → o ≡ some s → are_open s.stack ≡ true

some-Opens : (s : Scan) → are_open s.stack ≡ true → Opens (some s)
some-Opens s h = record {
  stack = λ t e. ap (λ x. are_open x.stack) (sym (some-injective s t e)) ∙ h;
}

none-Opens : Opens none
none-Opens = record { stack = λ t e. absurd (none-ne-some t e) }

if-Opens :
    (b : Bool) (p q : Option Scan)
    → (b ≡ true → Opens p)
    → (b ≡ false → Opens q)
    → Opens (if b then p else q)
if-Opens true p q f g = f refl
if-Opens false p q f g = g refl

close-Opens :
    (c : ℕ) (stack : List ℕ) (x : Bool) → are_open stack ≡ true → Opens (scan_close c stack x)
unfolding scan_close are_open
close-Opens c [] x h = none-Opens
close-Opens c (top ∷ stack) x h =
    if-Opens (top == c) _ _ (λ _. some-Opens _ (ground (arith, h))) (λ _. none-Opens)

inside-stack : (s : Scan) (c : ℕ) → (scan_inside s c).stack ≡ s.stack
unfolding scan_inside
inside-stack s c = ground arith

char-Opens : (s : Scan) (c : ℕ) → are_open s.stack ≡ true → Opens (scan_char s c)
unfolding scan_char are_open
char-Opens s c h =
    if-Opens s.in_string _ _ (λ _. some-Opens _ (ap are_open (inside-stack s c) ∙ h))
      λ _.
        if-Opens (c == quote) _ _ (λ _. some-Opens _ h)
          λ _.
            if-Opens ((c == b'{') || (c == b'[')) _ _ (λ e. some-Opens _ (ground (arith, e, h)))
              λ _.
                if-Opens (c == b'}') _ _ (λ _. close-Opens b'{' s.stack s.escape h)
                  λ _.
                    if-Opens (c == b']') _ _ (λ _. close-Opens b'[' s.stack s.escape h)
                      λ _. some-Opens s h

scan-are_open :
    (text : Text) (s : Scan) {t : Scan}
    → are_open s.stack ≡ true
    → scan text s ≡ some t
    → are_open t.stack ≡ true
unfolding scan bind
scan-are_open [] s {t} h e = (some-Opens s h).stack t e
scan-are_open (c ∷ text) s {t} h e = elim (Option-cases (scan_char s c)) [
  | inl n ↦ absurd (none-ne-some t (rw n at e))
  | inr (u, m) ↦ scan-are_open text u ((char-Opens s c h).stack u m) (rw m at e)
]

tail-are_open : (top : ℕ) (stack : List ℕ) → are_open (top ∷ stack) ≡ true → are_open stack ≡ true
unfolding are_open
tail-are_open top stack h = ground (arith, h)

start-are_open : are_open scan_start.stack ≡ true
unfolding are_open
start-are_open = refl

abbrev outside : List ℕ → Bool → Scan
outside stack escape = record { stack = stack; in_string = false; escape = escape }

outside_eq : (s : Scan) → s.in_string ≡ false → s ≡ outside s.stack s.escape
outside_eq s o i = record { stack = s.stack; in_string = o i; escape = s.escape }

closing_char :
    (top : ℕ) (stack : List ℕ) (x : Bool)
    → are_open (top ∷ stack) ≡ true
    → scan_char (outside (top ∷ stack) x) (closing top) ≡ some (outside stack x)
unfolding scan_char scan_close are_open closing
closing_char top stack x h = ground (arith, h)

-- The closings end a text that is not in a string.
closings-scan :
    (stack : List ℕ) (x : Bool)
    → are_open stack ≡ true
    → scan (closings stack) (outside stack x) ≡ some (outside [] x)
unfolding scan bind
closings-scan [] x h = refl
closings-scan (top ∷ stack) x h =
    rw (closing_char top stack x h) (closings-scan stack x (tail-are_open top stack h))

-- The text is balanced: every bracket that it opens outside of a string it closes, in order, and its
-- last string ends.
pub IsBalanced : Text → Type 0
IsBalanced text =
    (s : Scan) × (scan text scan_start ≡ some s) × (s.stack ≡ []) × (s.in_string ≡ false)

closed-IsBalanced :
    (body : Text) (stack : List ℕ) {s : Scan}
    → are_open stack ≡ true
    → scan body scan_start ≡ some s
    → s.stack ≡ stack
    → s.in_string ≡ false
    → IsBalanced (body ++ closings stack)
unfolding IsBalanced bind
closed-IsBalanced body stack {s} h e k o =
    let same = ap (λ y. outside y s.escape) k in
    let start = outside_eq s o in
    (
      outside [] s.escape,
      scan-append body (closings stack) scan_start
          ∙ rw (e, start, k) (closings-scan stack s.escape h),
      refl,
      refl,
    )

quoted-scan :
    (body : Text) {s : Scan}
    → scan body scan_start ≡ some s
    → s.in_string ≡ true
    → s.escape ≡ false
    → scan (body ++ quote ∷ []) scan_start ≡ some (outside s.stack false)
unfolding scan bind scan_char scan_inside
quoted-scan body {s} e i x = scan-append body (quote ∷ []) scan_start ∙ rw (e, i, x) refl

-- A text that the scan accepts is balanced once it is closed, if what is left of it without the white
-- space at its end does not stop inside an escape.
pub repaired-IsBalanced :
    (input : Text) {s t : Scan}
    → scan input scan_start ≡ some s
    → scan (trim_end input) scan_start ≡ some t
    → t.escape ≡ false
    → IsBalanced (repaired input s)
unfolding repaired
repaired-IsBalanced input {s} {t} e k x =
    let opened = scan-are_open input scan_start (start-are_open) e in
    let (u, k', h) = trim_end-scan input e in
    let eq = some-injective u t (sym k' ∙ k) in
    elim (Bool-cases s.in_string) [
      | inl i ↦ rw i (
          closed-IsBalanced (trim_end input ++ quote ∷ []) s.stack opened
            (quoted-scan (trim_end input) k (ap (λ y. y.in_string) (sym eq) ∙ h.same_string ∙ i) x)
            (ap (λ y. y.stack) (sym eq) ∙ h.same_stack) refl)
      | inr o ↦
          let (v, k'', h') = without_commas-scan (trim_end input) k' in
          rw o (
            closed-IsBalanced (without_commas (trim_end input)) s.stack opened k''
              (h'.same_stack ∙ h.same_stack) (h'.same_string ∙ h.same_string ∙ o))
    ]

-- ===== src/Llm/Repair/Trimmed.antt =====
-- What the scan of llm/json_repair.rs makes of a text without its end.
use mathlib.Core.List.{reverse, reverse-cons, reverse-reverse}
use mathlib.Core.Path.{sym}
use mathlib.Core.Option.{bind, some-injective, none-ne-some}
use piscis_engine.Prelude.{
  ◌≡◌, refl, ap, ◌∙◌, inl, inr, Bool-cases, Option-cases, ℕ, zero, suc, Bool, true, false, ◌||◌,
  Option, none, some, [], ◌∷◌, ◌++◌, ◌==◌, length, Text, is_whitespace, trim_start, arith,
}
use piscis_engine.Llm.Repair.{
  Scan, scan_start, scan_inside, scan_char, scan, trim_end, drop_commas, without_commas,
}

-- The scan of a text given backwards.
unfoldable scan_back : Text → Option Scan
scan_back [] = some scan_start
scan_back (c ∷ back) = bind (scan_back back) λ s. scan_char s c

pub scan-append : (xs ys : Text) (s : Scan) → scan (xs ++ ys) s ≡ bind (scan xs s) λ s'. scan ys s'
unfolding scan bind
scan-append [] ys s = refl
scan-append (c ∷ xs) ys s = elim (Option-cases (scan_char s c)) [
  | inl e ↦ rw e refl
  | inr (s', e) ↦ rw e (scan-append xs ys s')
]

scan_one : (c : ℕ) (o : Option Scan) → (bind o λ s. scan (c ∷ []) s) ≡ bind o λ s. scan_char s c
unfolding scan bind
scan_one c none = refl
scan_one c (some s) = elim (Option-cases (scan_char s c)) [
  | inl e ↦ rw e refl
  | inr (s', e) ↦ rw e refl
]

scan_nil : (s : Scan) → scan [] s ≡ some s
unfolding scan
scan_nil s = refl

scan-reverse : (back : Text) → scan (reverse back) scan_start ≡ scan_back back
unfolding scan_back
scan-reverse [] = scan_nil scan_start
scan-reverse (c ∷ back) =
    ap (λ t. scan t scan_start) (reverse-cons c back)
    ∙ scan-append (reverse back) (c ∷ []) scan_start
    ∙ rw (scan-reverse back) (scan_one c (scan_back back))

-- A character that the scan passes over outside of a string.
unfoldable is_passed : ℕ → Bool
is_passed c = is_whitespace c || (c == b',')

outside_char :
    (s : Scan) (c : ℕ) → is_passed c ≡ true → s.in_string ≡ false → scan_char s c ≡ some s
unfolding is_passed scan_char is_whitespace
outside_char s c p o = ground (arith, p, o)

whitespace_passed : (c : ℕ) → is_whitespace c ≡ true → is_passed c ≡ true
unfolding is_passed
whitespace_passed c h = rw h refl

comma_passed : (c : ℕ) → (c == b',') ≡ true → is_passed c ≡ true
unfolding is_passed
comma_passed c h = ground (arith, h)

inside_char :
    (s : Scan) (c : ℕ)
    → is_passed c ≡ true
    → s.in_string ≡ true
    → (scan_char s c ≡ some (scan_inside s c))
      × ((scan_inside s c).in_string ≡ true)
      × ((scan_inside s c).stack ≡ s.stack)
unfolding is_passed scan_char is_whitespace scan_inside
inside_char s c p i = (rw i refl, ground (arith, p, i), ground (arith, p, i))

-- The two scans are alike in what the closing of the text reads.
pub record Alike (s t : Scan) : Type 0 where
  pub same_string : s.in_string ≡ t.in_string
  pub same_stack : s.stack ≡ t.stack

abbrev ScansAlike : Text → Scan → Type 0
ScansAlike back s = (t : Scan) × (scan_back back ≡ some t) × Alike t s

passed-Alike :
    (t : Scan) (c : ℕ) {s : Scan} → is_passed c ≡ true → scan_char t c ≡ some s → Alike t s
passed-Alike t c {s} p e = elim (Bool-cases t.in_string) [
  | inl i ↦
      let (same, string, stack) = inside_char t c p i in
      let eq = some-injective (scan_inside t c) s (sym same ∙ e) in
      record {
        same_string = i ∙ sym string ∙ ap (λ x. x.in_string) eq;
        same_stack = sym stack ∙ ap (λ x. x.stack) eq;
      }
  | inr o ↦
      let eq = some-injective t s (sym (outside_char t c p o) ∙ e) in
      record { same_string = ap (λ x. x.in_string) eq; same_stack = ap (λ x. x.stack) eq }
]

last_char :
    (o : Option Scan) (c : ℕ) {s : Scan}
    → is_passed c ≡ true
    → (bind o λ t. scan_char t c) ≡ some s
    → (t : Scan) × (o ≡ some t) × Alike t s
unfolding bind
last_char none c {s} p e = absurd (none-ne-some s e)
last_char (some t) c {s} p e = (t, refl, passed-Alike t c p e)

trans-Alike : (s t u : Scan) → Alike s t → Alike t u → Alike s u
trans-Alike s t u h k = record {
  same_string = h.same_string ∙ k.same_string;
  same_stack = h.same_stack ∙ k.same_stack;
}

refl-Alike : (s : Scan) → Alike s s
refl-Alike s = record { same_string = refl; same_stack = refl }

then-ScansAlike : (back : Text) (t s : Scan) → Alike t s → ScansAlike back t → ScansAlike back s
then-ScansAlike back t s h (u, e, k) = (u, e, trans-Alike u t s k h)

trim_start-ScansAlike :
    (back : Text) (s : Scan) → scan_back back ≡ some s → ScansAlike (trim_start back) s
unfolding trim_start scan_back
trim_start-ScansAlike [] s e = (s, e, refl-Alike s)
trim_start-ScansAlike (c ∷ back) s e = elim (Bool-cases (is_whitespace c)) [
  | inl w ↦
      let (t, e', h) = last_char (scan_back back) c (whitespace_passed c w) e in
      rw w (then-ScansAlike (trim_start back) t s h (trim_start-ScansAlike back t e'))
  | inr w ↦ rw w (s, e, refl-Alike s)
]

drop_commas-ScansAlike :
    (fuel : ℕ) (back : Text) (s : Scan)
    → scan_back back ≡ some s
    → ScansAlike (drop_commas fuel back) s
unfolding drop_commas scan_back
drop_commas-ScansAlike zero back s e = (s, e, refl-Alike s)
drop_commas-ScansAlike (suc fuel) [] s e = (s, e, refl-Alike s)
drop_commas-ScansAlike (suc fuel) (c ∷ back) s e = elim (Bool-cases (c == b',')) [
  | inl w ↦
      let (t, e', h) = last_char (scan_back back) c (comma_passed c w) e in
      let (u, e'', k) = trim_start-ScansAlike back t e' in
      rw w (
        then-ScansAlike _ u s (trans-Alike u t s k h)
          (drop_commas-ScansAlike fuel (trim_start back) u e''))
  | inr w ↦ rw w (s, e, refl-Alike s)
]

pub trim_end-scan :
    (input : Text) {s : Scan}
    → scan input scan_start ≡ some s
    → (t : Scan) × (scan (trim_end input) scan_start ≡ some t) × Alike t s
unfolding trim_end
trim_end-scan input {s} e =
    let whole = sym (scan-reverse (reverse input)) ∙ rw (reverse-reverse input) e in
    let (t, e', h) = trim_start-ScansAlike (reverse input) s whole in
    (t, scan-reverse (trim_start (reverse input)) ∙ e', h)

pub without_commas-scan :
    (body : Text) {s : Scan}
    → scan body scan_start ≡ some s
    → (t : Scan) × (scan (without_commas body) scan_start ≡ some t) × Alike t s
unfolding without_commas
without_commas-scan body {s} e =
    let whole = sym (scan-reverse (reverse body)) ∙ rw (reverse-reverse body) e in
    let (t, e', h) = drop_commas-ScansAlike (length body) (reverse body) s whole in
    (t, scan-reverse (drop_commas (length body) (reverse body)) ∙ e', h)

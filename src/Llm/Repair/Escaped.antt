-- ===== src/Llm/Repair/Escaped.antt =====
-- What `escape_string_contents` of llm/json_repair.rs leaves.
use mathlib.Core.Option.{some-injective, none-ne-some}
use piscis_engine.Prelude.{
  ◌≡◌, refl, inl, inr, Bool-cases, ℕ, zero, suc, ◌/◌, ◌%◌, ◌≤◌, ◌<◌, Bool, true, false, ◌&&◌, none,
  some, [], ◌∷◌, ◌++◌, ◌==◌, ltb, leb, if◌then◌else◌, length, take, drop, all, Text, arith,
}
use piscis_engine.Llm.Repair.{
  quote, backslash, is_hex, hex_digit, Piece, kept, escaped, is_short_escape, escape_backslash,
  escape_step, escape_loop, escape_string_contents,
}

-- A piece of which `n` characters have been taken, that changes nothing.
abbrev unchanged : Piece → ℕ → Piece
unchanged p n = record { pushed = p.pushed; skip = n; in_string = p.in_string; changed = false }

-- What a piece pushes, followed by any text, is read as the same piece again, without a change.
record Rereads (s : Bool) (p : Piece) : Type 0 where
  pub head : ℕ
  pub tail : Text
  pub pushes : p.pushed ≡ head ∷ tail
  pub again : (t : Text) → escape_step s head (tail ++ t) ≡ unchanged p (length tail)

abbrev control_escape : ℕ → Text
control_escape c = backslash ∷ b'u' ∷ b'0' ∷ b'0' ∷ hex_digit (c / 16) ∷ hex_digit (c % 16) ∷ []

hex_digit-is_hex : (n : ℕ) → n < 16 → is_hex (hex_digit n) ≡ true
unfolding is_hex hex_digit
hex_digit-is_hex n h = ground (arith, h)

control_reread :
    (c : ℕ) (t : Text)
    → ltb c 32 ≡ true
    → escape_backslash (b'u' ∷ b'0' ∷ b'0' ∷ hex_digit (c / 16) ∷ hex_digit (c % 16) ∷ t) ≡ record {
      pushed = backslash ∷ b'u' ∷ b'0' ∷ b'0' ∷ hex_digit (c / 16) ∷ hex_digit (c % 16) ∷ [];
      skip = 5;
      in_string = true;
      changed = false;
    }
unfolding escape_backslash is_short_escape
control_reread c t h =
    rw
      (hex_digit-is_hex (c / 16) (ground (arith, h)), hex_digit-is_hex (c % 16) (ground (arith, h)))
      (ground arith)

if-Rereads :
    (s b : Bool) (p q : Piece)
    → (b ≡ true → Rereads s p)
    → (b ≡ false → Rereads s q)
    → Rereads s (if b then p else q)
if-Rereads s true p q f g = f refl
if-Rereads s false p q f g = g refl

unicode_Rereads :
    (c : ℕ) (rest : Text)
    → ((c == b'u') && (leb 4 (length rest) && all is_hex (take 4 rest))) ≡ true
    → Rereads true (record {
      pushed = backslash ∷ c ∷ take 4 rest;
      skip = 5;
      in_string = true;
      changed = false;
    })
unfolding escape_step escape_backslash is_short_escape
unicode_Rereads c [] h = ground (arith, h)
unicode_Rereads c (x ∷ []) h = ground (arith, h)
unicode_Rereads c (x ∷ y ∷ []) h = ground (arith, h)
unicode_Rereads c (x ∷ y ∷ z ∷ []) h = ground (arith, h)
unicode_Rereads c (x ∷ y ∷ z ∷ w ∷ rest) h = record {
  head = backslash;
  tail = c ∷ x ∷ y ∷ z ∷ w ∷ [];
  pushes = refl;
  again = λ t. ground (arith, h);
}

short_Rereads :
    (c : ℕ)
    → is_short_escape c ≡ true
    → (p : Piece) → p.pushed ≡ backslash ∷ c ∷ []
    → p.in_string ≡ true
    → Rereads true p
unfolding escape_step escape_backslash
short_Rereads c h p e i = record {
  head = backslash;
  tail = c ∷ [];
  pushes = e;
  again = λ t. rw h (ground (arith, e, i));
}

backslash_Rereads : (rest : Text) → Rereads true (escape_backslash rest)
unfolding escape_backslash is_short_escape
backslash_Rereads [] = short_Rereads backslash refl _ refl refl
backslash_Rereads (c ∷ rest) = elim (Bool-cases (is_short_escape c)) [
  | inl e ↦ rw e (short_Rereads c e _ refl refl)
  | inr e ↦
      rw e (elim (Bool-cases ((c == b'u') && (leb 4 (length rest) && all is_hex (take 4 rest)))) [
        | inl h ↦ rw h (unicode_Rereads c rest h)
        | inr h ↦ rw h (short_Rereads backslash refl _ refl refl)
      ])
]

control_Rereads : (c : ℕ) → ltb c 32 ≡ true → Rereads true (escaped (control_escape c))
unfolding escape_step
control_Rereads c h = record {
  head = backslash;
  tail = b'u' ∷ b'0' ∷ b'0' ∷ hex_digit (c / 16) ∷ hex_digit (c % 16) ∷ [];
  pushes = refl;
  again = λ t. control_reread c t h;
}

outside_Rereads : (c : ℕ) → Rereads false (kept c (c == quote))
unfolding escape_step
outside_Rereads c = record { head = c; tail = []; pushes = refl; again = λ t. refl }

quote-Rereads : (c : ℕ) → (c == quote) ≡ true → Rereads true (kept c false)
unfolding escape_step
quote-Rereads c e = record { head = c; tail = []; pushes = refl; again = λ t. rw e refl }

plain_Rereads :
    (c : ℕ)
    → (c == quote) ≡ false
    → (c == backslash) ≡ false
    → ltb c 32 ≡ false
    → Rereads true (kept c true)
unfolding escape_step
plain_Rereads c q b l = record {
  head = c;
  tail = [];
  pushes = refl;
  again = λ t. ground (arith, q, b, l);
}

inside_Rereads : (c : ℕ) (rest : Text) → Rereads true (escape_step true c rest)
unfolding escape_step
inside_Rereads c rest = if-Rereads true (c == quote) _ _ (quote-Rereads c) λ q.
    if-Rereads true (c == backslash) _ _ (λ _. backslash_Rereads rest)
      λ b.
        if-Rereads true (c == 10) _ _ (λ _. short_Rereads b'n' refl _ refl refl)
          λ _.
            if-Rereads true (c == 13) _ _ (λ _. short_Rereads b'r' refl _ refl refl)
              λ _.
                if-Rereads true (c == 9) _ _ (λ _. short_Rereads b't' refl _ refl refl)
                  λ _. if-Rereads true (ltb c 32) _ _ (control_Rereads c) λ l. plain_Rereads c q b l

step_Rereads : (s : Bool) (c : ℕ) (rest : Text) → Rereads s (escape_step s c rest)
unfolding escape_step
step_Rereads false c rest = outside_Rereads c
step_Rereads true c rest = inside_Rereads c rest

drop-length-append : (xs ys : Text) → drop (length xs) (xs ++ ys) ≡ ys
drop-length-append [] ys = refl
drop-length-append (x ∷ xs) ys = drop-length-append xs ys

loop_again :
    (fuel : ℕ) (s : Bool) (xs : Text) (more : ℕ)
    → (escape_loop more s (escape_loop fuel s xs).0).1 ≡ false
unfolding escape_loop
loop_again fuel s xs zero = refl
loop_again zero s xs (suc more) = refl
loop_again (suc fuel) s [] (suc more) = refl
loop_again (suc fuel) s (c ∷ rest) (suc more) =
    let p = escape_step s c rest in
    let r = step_Rereads s c rest in
    let out = (escape_loop fuel p.in_string (drop p.skip rest)).0 in
    rw (r.pushes, r.again out, drop-length-append r.tail out)
      (loop_again fuel p.in_string (drop p.skip rest) more)

length-drop_le : (n : ℕ) (xs : Text) → length (drop n xs) ≤ length xs
length-drop_le zero xs = omega arith
length-drop_le (suc n) [] = omega arith
length-drop_le (suc n) (x ∷ xs) = omega (arith, length-drop_le n xs)

-- The text's length is enough fuel: more changes nothing.
escape_loop_enough :
    (f g : ℕ) (s : Bool) (xs : Text)
    → length xs ≤ f
    → length xs ≤ g
    → escape_loop f s xs ≡ escape_loop g s xs
unfolding escape_loop
escape_loop_enough zero zero s xs h k = refl
escape_loop_enough zero (suc g) s [] h k = refl
escape_loop_enough zero (suc g) s (c ∷ rest) h k = absurd (omega (arith, h))
escape_loop_enough (suc f) zero s [] h k = refl
escape_loop_enough (suc f) zero s (c ∷ rest) h k = absurd (omega (arith, k))
escape_loop_enough (suc f) (suc g) s [] h k = refl
escape_loop_enough (suc f) (suc g) s (c ∷ rest) h k =
    let p = escape_step s c rest in
    let l = length-drop_le p.skip rest in
    rw
      (escape_loop_enough f g p.in_string (drop p.skip rest) (omega (arith, h, l))
        (omega (arith, k, l)))
      refl

changed_cases :
    (b : Bool) (xs : Text) {out : Text} → (if b then some xs else none) ≡ some out → xs ≡ out
changed_cases true xs {out} e = some-injective xs out e
changed_cases false xs {out} e = absurd (none-ne-some out e)

-- If escaping changes a text, the result needs no escape: a second pass finds nothing to change. Any
-- fuel from the text's length on gives the same result.
pub escape_string_contents_stable :
    (input : Text) (fuel : ℕ) {out : Text}
    → escape_string_contents input ≡ some out
    → length input ≤ fuel
    → (escape_string_contents out ≡ none) × ((escape_loop fuel false input).0 ≡ out)
unfolding escape_string_contents
escape_string_contents_stable input fuel {out} e h =
    let (all_out, changed) = escape_loop (length input) false input in
    let same = changed_cases changed all_out e in
    (
      rw (← same, loop_again (length input) false input (length all_out)) refl,
      rw (escape_loop_enough fuel (length input) false input h (omega arith)) same,
    )

-- ===== src/Store/Rows.antt =====
-- Lemmas on the rows of the board: reading after an update, and what all rows of an id show.
use piscis_engine.Prelude.{
  ◌≡◌, refl, Bool, true, false, Option, none, some, List, [], ◌∷◌, Text, text_eq, text_eq_sound,
  any, all, find, map, arith, Bool-cases, inl, inr, if◌then◌else◌,
}
use piscis_engine.Model.{KoiTodo, PoolSession}
use piscis_engine.Store.{update_where}

abbrev pub has_id : Text → KoiTodo → Bool
has_id id t = text_eq t.id id

abbrev pub updated_option : (KoiTodo → Bool) → (KoiTodo → KoiTodo) → Option KoiTodo → Option KoiTodo
updated_option p f none = none
updated_option p f (some t) = some (if p t then f t else t)

-- A change that does not touch what the search looks at moves the row that is found.
pub find-update_where :
    (q p : KoiTodo → Bool) (f : KoiTodo → KoiTodo)
    → ((t : KoiTodo) → q (f t) ≡ q t)
    → (ts : List KoiTodo) → find q (update_where p f ts) ≡ updated_option p f (find q ts)
unfolding update_where
find-update_where q p f same [] = refl
find-update_where q p f same (t ∷ ts) = ground (arith, same t, find-update_where q p f same ts)

pub any-update_where :
    (q p : KoiTodo → Bool) (f : KoiTodo → KoiTodo)
    → ((t : KoiTodo) → q (f t) ≡ q t)
    → (ts : List KoiTodo) → any q (update_where p f ts) ≡ any q ts
unfolding update_where
any-update_where q p f same [] = refl
any-update_where q p f same (t ∷ ts) = ground (arith, same t, any-update_where q p f same ts)

-- A test that holds of all rows holds of a changed table, if the change keeps it where it is made.
pub all-update_where :
    (q p : KoiTodo → Bool) (f : KoiTodo → KoiTodo)
    → ((t : KoiTodo) → p t ≡ true → q t ≡ true → q (f t) ≡ true)
    → (ts : List KoiTodo) → all q ts ≡ true
    → all q (update_where p f ts) ≡ true
unfolding update_where
all-update_where q p f keeps [] h = refl
all-update_where q p f keeps (t ∷ ts) h = ground (arith, keeps t, all-update_where q p f keeps ts)

pub all-find :
    (q p : KoiTodo → Bool) (ts : List KoiTodo) {t : KoiTodo}
    → all q ts ≡ true
    → find p ts ≡ some t
    → q t ≡ true
all-find q p [] h e = ground arith
all-find q p (x ∷ ts) {t} h e = ground (arith, all-find q p ts {t = t})

pub find-any :
    (p : KoiTodo → Bool) (ts : List KoiTodo)
    → any p ts ≡ true
    → (t : KoiTodo) × (find p ts ≡ some t)
find-any p [] h = ground arith
find-any p (x ∷ ts) h = elim (Bool-cases (p x)) [
  | inl yes_x ↦ (x, rw yes_x)
  | inr no_x ↦ let (t, e) = find-any p ts (ground arith) in (t, rw no_x e)
]

pub not-any-find :
    (p : KoiTodo → Bool) (ts : List KoiTodo) {t : KoiTodo} → find p ts ≡ some t → any p ts ≡ true
not-any-find p [] e = ground arith
not-any-find p (x ∷ ts) {t} e = ground (arith, not-any-find p ts {t = t})

-- A search in the pools looks at what a change of one of them keeps.
pub any-update_pool :
    (id : Text) (f : PoolSession → PoolSession) (q : PoolSession → Bool)
    → ((p : PoolSession) → q (f p) ≡ q p)
    → (ps : List PoolSession) → any q (map (λ p. if text_eq p.id id then f p else p) ps) ≡ any q ps
any-update_pool id f q same [] = refl
any-update_pool id f q same (p ∷ ps) = ground (arith, same p, any-update_pool id f q same ps)

-- Two texts that a third equals or not.
pub text_eq-trans_false :
    (a b c : Text) → text_eq a b ≡ true → text_eq b c ≡ false → text_eq a c ≡ false
text_eq-trans_false a b c h k = rw (text_eq_sound a b h) k

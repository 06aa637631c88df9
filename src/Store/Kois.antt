-- ===== src/Store/Kois.antt =====
-- db.rs, the `kois` statements that the pool uses.
use piscis_engine.Prelude.{
  false, ascii_lower, byte_length, text, Bool, any, leb, is_whitespace, ◌==◌, ◌||◌, ◌&&◌, ◌++◌, ℕ,
  Option, none, some, List, [], ◌∷◌, Text, text_eq, trim, is_blank, find, keep, map, if◌then◌else◌,
}
use piscis_engine.Model.{KoiDefinition, KoiStatus, rfc3339}
use piscis_engine.Store.{has_koi, Db, Error, Result, ok, err}

-- SQLite's `LIKE`, with the pattern first: `%` stands for any text, `_` for any character, and ASCII
-- letters are compared without case.
unfoldable pub suffixes : Text → List Text
suffixes [] = [] ∷ []
suffixes (c ∷ s) = (c ∷ s) ∷ suffixes s

abbrev pub like_char : ℕ → (Text → Bool) → Text → Bool
like_char p rest [] = false
like_char p rest (c ∷ s) = ((p == b'_') || (ascii_lower p == ascii_lower c)) && rest s

unfoldable pub like : Text → Text → Bool
unfolding suffixes ascii_lower
like [] s = is_blank s
like (p ∷ ps) s = if p == b'%' then any (like ps) (suffixes s) else like_char p (like ps) s

abbrev pub only_koi : List KoiDefinition → Option KoiDefinition
only_koi [] = none
only_koi (k ∷ []) = some k
only_koi (k ∷ l ∷ ks) = none

abbrev pub koi_or_by_prefix :
    Option KoiDefinition → Text → List KoiDefinition → Option KoiDefinition
koi_or_by_prefix (some k) id kois = some k
koi_or_by_prefix none id kois =
    if leb 6 (byte_length id) then only_koi (keep (λ k. like (id ++ text "%") k.id) kois) else none

-- The exact id, or else the only id that begins with the text, if it has six bytes.
unfoldable pub get_koi : Text → Db → Option KoiDefinition
unfolding like
get_koi id db = koi_or_by_prefix (find (λ k. text_eq k.id id) db.kois) id db.kois

abbrev pub list_kois : Db → List KoiDefinition
list_kois db = db.kois

-- `match matches.len()`.
abbrev pub unique_koi : List KoiDefinition → Result (Option KoiDefinition)
unique_koi [] = ok none
unique_koi (k ∷ []) = ok (some k)
unique_koi (k ∷ l ∷ ks) = err Error.ambiguous

abbrev pub koi_or_by_name :
    Option KoiDefinition → List KoiDefinition → Result (Option KoiDefinition)
koi_or_by_name (some k) named = ok (some k)
koi_or_by_name none named = unique_koi named

unfoldable pub resolve_koi_identifier : Text → Db → Result (Option KoiDefinition)
unfolding get_koi
resolve_koi_identifier value db =
    let v = trim value in
    if is_blank v
    then ok none
    else koi_or_by_name (get_koi v db) (keep (λ k. text_eq k.name v) (list_kois db))

unfoldable pub update_koi_status : ℕ → Text → KoiStatus → Db → Db
update_koi_status now id status db = record db {
  kois =
      map
        (λ k. if text_eq k.id id then record k { status = status; updated_at = rfc3339 now } else k)
        db.kois;
}

unfoldable pub is_disallowed_koi_name_char : ℕ → Bool
is_disallowed_koi_name_char c =
    (c == 0x200d)
    || (c == 0xfe0f)
    || (leb 0x1f1e6 c && leb c 0x1f1ff)
    || (leb 0x1f300 c && leb c 0x1faff)
    || (leb 0x2600 c && leb c 0x27bf)
    || (leb 0x2300 c && leb c 0x23ff)

unfoldable pub normalize_koi_name : Text → Result Text
unfolding is_disallowed_koi_name_char
normalize_koi_name name =
    if is_blank (trim name)
    then err Error.invalid_koi_name
    else if any is_whitespace (trim name)
    then err Error.invalid_koi_name
    else if any is_disallowed_koi_name_char (trim name)
    then err Error.invalid_koi_name
    else ok (trim name)

-- The row of `INSERT OR IGNORE`; the rest of its columns are given as empty.
unfoldable pub sentinel_koi : ℕ → Text → Text → KoiDefinition
sentinel_koi now id name = record {
  id = id;
  name = name;
  role = [];
  icon = [];
  color = [];
  system_prompt = [];
  description = [];
  status = KoiStatus.idle;
  created_at = now;
  updated_at = rfc3339 now;
  llm_provider_id = none;
  max_iterations = 0;
  task_timeout_secs = 0;
}

abbrev pub insert_or_ignore : ℕ → Text → Result Text → Db → Result (Unit {0} × Db)
insert_or_ignore now id (err e) db = err e
insert_or_ignore now id (ok name) db =
    if has_koi id db
    then ok (tt, db)
    else ok (tt, record db { kois = db.kois ++ (sentinel_koi now id name ∷ []) })

unfoldable pub upsert_koi_with_id : ℕ → Text → Text → Db → Result (Unit {0} × Db)
unfolding normalize_koi_name sentinel_koi
upsert_koi_with_id now id name db = insert_or_ignore now id (normalize_koi_name name) db

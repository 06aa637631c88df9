-- ===== src/Agent/Journal/Paths.antt =====
-- The paths of agent/file_journal.rs and of the tools file_write and file_edit, as
-- `std::path` has them on Unix, below an absolute workspace root.
use piscis_engine.Prelude.{
  ℕ, Bool, true, false, not, ◌&&◌, ◌||◌, Option, none, some, List, [], ◌∷◌, ◌++◌, all, keep, map,
  if◌then◌else◌, Text, text, text_eq, is_blank, ◌==◌,
}
use mathlib.Core.List.{reverse}

abbrev pub push_part : ℕ → List Text → List Text
push_part c [] = (c ∷ []) ∷ []
push_part c (p ∷ ps) = (c ∷ p) ∷ ps

-- The parts between slashes, empty ones too.
unfoldable pub split_slash : Text → List Text
split_slash [] = [] ∷ []
split_slash (c ∷ s) = let rest = split_slash s in if c == b'/' then [] ∷ rest else push_part c rest

unfoldable pub join_slash : List Text → Text
join_slash [] = []
join_slash (p ∷ []) = p
join_slash (p ∷ q ∷ ps) = p ++ text "/" ++ join_slash (q ∷ ps)

-- `Path::components` passes over empty parts and `.`.
abbrev pub is_skipped : Text → Bool
is_skipped p = is_blank p || text_eq p (text ".")

unfoldable pub drop_skipped : List Text → List Text
drop_skipped [] = []
drop_skipped (p ∷ ps) = let rest = drop_skipped ps in if is_skipped p then rest else p ∷ ps

unfoldable pub is_absolute : Text → Bool
is_absolute [] = false
is_absolute (c ∷ s) = c == b'/'

-- The parts after those of the prefix.
unfoldable pub strip_parts : List Text → List Text → Option (List Text)
strip_parts [] ps = some ps
strip_parts (c ∷ cs) [] = none
strip_parts (c ∷ cs) (p ∷ ps) =
    let passed = strip_parts (c ∷ cs) ps in
    let stripped = strip_parts cs ps in
    if is_skipped p then passed else if text_eq p c then stripped else none

abbrev pub rest_of : Option (List Text) → Text → Text
rest_of none raw = raw
rest_of (some ps) raw = join_slash (reverse (drop_skipped (reverse (drop_skipped ps))))

-- `strip_prefix(root).unwrap_or(p)`.
unfoldable pub strip_root : Text → Text → Text
unfolding split_slash join_slash drop_skipped strip_parts is_absolute
strip_root root raw =
    if is_absolute raw
    then rest_of (strip_parts (keep (λ p. not (is_skipped p)) (split_slash root)) (split_slash raw))
        raw
    else raw

unfoldable pub trim_slashes : Text → Text
trim_slashes [] = []
trim_slashes (c ∷ s) = let rest = trim_slashes s in if c == b'/' then rest else c ∷ s

unfoldable pub rel_path : Text → Text → Text
unfolding strip_root trim_slashes
rel_path root raw = trim_slashes (map (λ c. if c == b'\\' then b'/' else c) (strip_root root raw))

-- `Path::join`.
unfoldable pub ends_in_slash : Text → Bool
ends_in_slash [] = true
ends_in_slash (c ∷ []) = c == b'/'
ends_in_slash (c ∷ d ∷ s) = ends_in_slash (d ∷ s)

unfoldable pub join : Text → Text → Text
unfolding is_absolute ends_in_slash
join root path =
    if is_absolute path
    then path
    else if ends_in_slash root
    then root ++ path
    else root ++ text "/" ++ path

abbrev pub abs_path : Text → Text → Text
abs_path root rel = join root rel

-- The path that file_write and file_edit use.
unfoldable pub tool_path : Text → Text → Text
unfolding join is_absolute
tool_path root raw = if is_absolute raw then raw else join root raw

-- A relative path of names, without an empty part, `.` or `..`.
abbrev pub is_name : Text → Bool
is_name p = not (is_skipped p) && not (text_eq p (text ".."))

unfoldable pub is_plain : Text → Bool
unfolding split_slash
is_plain p = all is_name (split_slash p)

-- ===== src/Policy.antt =====
-- What an agent may do: `piscis-kernel/src/policy`, with the scan for prompt injection of
-- `piscis-kernel/src/security/injection.rs`.
pub mod Injection
pub mod Decision
pub mod Gate
pub mod Modes
use piscis_engine.Prelude.{ℕ, Bool, Option, List, Text}

-- What the two files call of other crates and of the standard library.
pub record Platform : Type 1 where
  -- `Regex::new(pattern).is_match(text)`.
  pub is_match : (pattern text : Text) → Bool
  -- `Regex::new(pattern).replace_all(text, by)`.
  pub replace_all : (pattern text by : Text) → Text
  pub to_lowercase : Text → Text
  -- `STANDARD.decode` of the `base64` crate, and `String::from_utf8`.
  pub base64_text : Text → Option Text
  -- `std::path`, on a text that is a path.
  pub FilePath : Type 0
  pub to_path : Text → FilePath
  pub is_absolute : FilePath → Bool
  pub join : FilePath → FilePath → FilePath
  pub parent : FilePath → Option FilePath
  pub file_name : FilePath → Option FilePath
  pub no_name : FilePath
  pub canonicalize : FilePath → Option FilePath
  pub starts_with_path : FilePath → FilePath → Bool
  -- `normalize_path_for_compare`, which is the identity but on Windows.
  pub comparable : FilePath → FilePath
  -- `path_text::display_path`.
  pub display_path : FilePath → Text

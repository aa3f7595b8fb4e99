-- ===== src/Models/Path.antt =====
-- `normalize_path`, the key under which paths are stored and looked up. Rust's `to_lowercase`
-- reads the Unicode case tables, which are not code of the repository: it is a parameter.
use ceasefire.Text.{Text, replace}

module _ (lower : Text → Text) where
  unfoldable pub normalize_path : Text → Text
  unfolding replace
  normalize_path p = replace b'/' b'\\' (lower p)

-- ===== src/Rule/Domain.antt =====
-- `validate_domain` of service/src/rule/validator.rs, and `domain_pattern_matches` of
-- service/src/rule/domain_expander.rs.
use ceasefire.Prelude.{
  ℕ, Bool, false, not, ◌&&◌, ◌||◌, List, [], ◌∷◌, Option, none, some, Result, ok, err, ltb, ◌==◌,
  if◌then◌else◌, ◌>>=◌, ◌>>◌, reject_if, is_empty, all, same, list_eq, nat_eq,
}
use ceasefire.Text.{
  Text, trim, utf8_len, strip_prefix, contains_char, split, is_ascii_alphanumeric, ends_with,
}

pub data Reason : Type 0 where
  empty_domain blank_around too_long bad_wildcard : Reason
  empty_label label_too_long bad_character bad_hyphen : Reason

-- The bytes `*.`, which a wildcard leads with.
abbrev pub wildcard : Text
wildcard = b'*' ∷ b'.' ∷ []

ends_with_char : ℕ → Text → Bool
ends_with_char x [] = false
ends_with_char x (c ∷ s) = if is_empty s then c == x else ends_with_char x s

starts_with_char : ℕ → Text → Bool
starts_with_char x [] = false
starts_with_char x (c ∷ s) = c == x

abbrev label_char : ℕ → Bool
label_char c = is_ascii_alphanumeric c || c == b'-'

-- The body of the loop over the labels.
check_label : Text → Result Reason (Unit {0})
unfolding ends_with_char starts_with_char
check_label label = do
  reject_if (is_empty label) empty_label
  reject_if (ltb 63 (utf8_len label)) label_too_long
  reject_if (not (all label_char label)) bad_character
  reject_if (starts_with_char b'-' label || ends_with_char b'-' label) bad_hyphen

check_labels : List Text → Result Reason (Unit {0})
check_labels [] = ok tt
check_labels (label ∷ rest) = do check_label label; check_labels rest

-- The rest behind a leading `*.`, if that is the only wildcard and something follows it.
wildcard_rest : Option Text → Option Text
wildcard_rest none = none
wildcard_rest (some rest) = if is_empty rest || contains_char b'*' rest then none else some rest

host_of : Text → Option Text → Result Reason Text
host_of d (some rest) = ok rest
host_of d none = if contains_char b'*' d then err bad_wildcard else ok d

unfoldable pub validate_domain : Text → Result Reason (Unit {0})
unfolding check_label check_labels wildcard_rest host_of
validate_domain domain = do
  let d = trim domain
  reject_if (is_empty d) empty_domain
  reject_if (not (same d domain)) blank_around
  reject_if (ltb 253 (utf8_len d)) too_long
  host ← host_of d (wildcard_rest (strip_prefix wildcard d))
  check_labels (split b'.' host)

module _ (lower : Text → Text) where
  matches_pattern : Text → Text → Option Text → Bool
  matches_pattern pattern domain none = same pattern domain
  matches_pattern pattern domain (some suffix) =
      not (is_empty suffix) && ends_with (b'.' ∷ suffix) domain

  unfoldable pub domain_pattern_matches : Text → Text → Bool
  unfolding matches_pattern
  domain_pattern_matches pattern domain =
      let p = lower (trim pattern) in
      let d = lower (trim domain) in
      if is_empty p || is_empty d then false else matches_pattern p d (strip_prefix wildcard p)

-- ===== src/Text/Number.antt =====
-- `str::parse` for unsigned integers: an optional `+`, then decimal digits within the bound.
use ceasefire.Prelude.{
  ℕ, ◌+◌, ◌-◌, ◌*◌, ◌≤◌, ◌≡◌, refl, ◌&&◌, [], ◌∷◌, Option, none, some, ltb, leb, ◌==◌,
  if◌then◌else◌, arith, Option-cases, inl, inr,
}
use ceasefire.Text.{Text, codes}

-- `char::to_digit(radix)`
unfoldable pub to_digit : ℕ → ℕ → Option ℕ
to_digit radix c =
    let d =
      if leb b'0' c && leb c b'9'
      then c - b'0'
      else if leb b'a' c && leb c b'z'
      then c - b'a' + 10
      else if leb b'A' c && leb c b'Z'
      then c - b'A' + 10
      else radix in
    if ltb d radix then some d else none

unfoldable pub digits_from : ℕ → ℕ → Text → Option ℕ
unfolding to_digit
digits_from limit n [] = some n
digits_from limit n (c ∷ s) = elim (to_digit 10 c) [
  | none ↦ none
  | some d ↦ if ltb limit (n * 10 + d) then none else digits_from limit (n * 10 + d) s
]

abbrev pub strip_plus : Text → Text
strip_plus [] = []
strip_plus (c ∷ s) = if c == b'+' then s else c ∷ s

abbrev pub nonempty_digits : ℕ → Text → Option ℕ
unfolding digits_from
nonempty_digits limit [] = none
nonempty_digits limit (c ∷ s) = digits_from limit 0 (c ∷ s)

-- `parse::<uN>()`, with `limit` the type's maximum.
unfoldable pub parse_uint : ℕ → Text → Option ℕ
unfolding digits_from
parse_uint limit s = nonempty_digits limit (strip_plus s)

plus_test : parse_uint 255 (codes "+24") ≡ some 24
unfolding parse_uint
plus_test = refl

overflow_test : parse_uint 255 (codes "256") ≡ none
unfolding parse_uint
overflow_test = refl

digits_from_bound :
    (limit n : ℕ) (s : Text) {v : ℕ} → n ≤ limit → digits_from limit n s ≡ some v → v ≤ limit
unfolding digits_from
digits_from_bound limit n [] h e = ground arith
digits_from_bound limit n (c ∷ s) {v} h e = elim (Option-cases (to_digit 10 c)) [
  | inl q ↦ ground arith
  | inr (d, q) ↦ ground (arith, digits_from_bound limit (n * 10 + d) s {v = v})
]

-- A parsed number fits the type.
pub parse_uint_bound : (limit : ℕ) (s : Text) {v : ℕ} → parse_uint limit s ≡ some v → v ≤ limit
unfolding parse_uint
parse_uint_bound limit s {v} e = go (strip_plus s) e
  where
    go : (t : Text) → nonempty_digits limit t ≡ some v → v ≤ limit
    go [] h = cc
    go (c ∷ t) h = digits_from_bound limit 0 (c ∷ t) (omega arith) h

-- ===== src/Models/Ports.antt =====
-- `PortRange::matches` and `PortRange::parse`.
use ceasefire.Prelude.{
  ℕ, ◌≡◌, refl, Bool, ◌&&◌, List, [], ◌∷◌, Option, none, some, Result, ok, err, leb, ◌==◌,
  if◌then◌else◌,
}
use ceasefire.Text.{Text, codes, contains_char, split}
use ceasefire.Text.Number.{parse_uint}
use ceasefire.Models.{PortRange, single, range}

unfoldable pub matches : PortRange → ℕ → Bool
matches (single p) port = p == port
matches (range start end) port = leb start port && leb port end

pub data PortError : Type 0 where
  invalid_start_port invalid_end_port start_after_end invalid_format invalid_port : PortError

ordered_range : ℕ → ℕ → Result PortError PortRange
ordered_range start end = if leb start end then ok (range start end) else err start_after_end

range_of_parts : List Text → Result PortError PortRange
range_of_parts (a ∷ b ∷ []) = elim (parse_uint 65535 a) [
  | none ↦ err invalid_start_port
  | some start ↦ elim (parse_uint 65535 b) [
    | none ↦ err invalid_end_port
    | some end ↦ ordered_range start end
  ]
]
range_of_parts _ = err invalid_format

single_of : Option ℕ → Result PortError PortRange
single_of none = err invalid_port
single_of (some port) = ok (single port)

unfoldable pub parse : Text → Result PortError PortRange
unfolding ordered_range range_of_parts single_of contains_char split parse_uint
parse s =
    if contains_char b'-' s then range_of_parts (split b'-' s) else single_of (parse_uint 65535 s)

parse_test : parse (codes "80-443") ≡ ok (range 80 443)
unfolding parse
parse_test = refl

parse_backwards_test : parse (codes "443-80") ≡ err start_after_end
unfolding parse
parse_backwards_test = refl

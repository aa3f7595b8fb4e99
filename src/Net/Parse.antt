-- ===== src/Net/Parse.antt =====
-- `str::parse::<IpAddr>()` of the standard library, which the validator and the converter call:
-- four decimal octets, or eight groups of hexadecimal digits with `::` and a trailing IPv4 part.
pub mod Range
use ceasefire.Prelude.{
  ℕ, zero, suc, ◌+◌, ◌-◌, ◌*◌, ◌/◌, ◌%◌, ◌≡◌, refl, Bool, true, false, not, ◌&&◌, ◌||◌, List, [],
  ◌∷◌, ◌++◌, Option, none, some, ltb, ◌==◌, if◌then◌else◌, length, replicate,
}
use ceasefire.Prelude.Maybe.{◌>>=◌, ◌>>◌}
use ceasefire.Text.{Text, codes}
use ceasefire.Text.Number.{to_digit}
use ceasefire.Net.{IpAddr, v4, v6}

read_char : ℕ → Text → Option Text
read_char x [] = none
read_char x (c ∷ s) = if c == x then some s else none

-- The digits at the head of a text: their value, their number, and what follows.
read_digits : ℕ → ℕ → ℕ → Text → ℕ → ℕ → Option (ℕ × ℕ × Text)
read_digits radix most limit [] v n = some (v, n, [])
read_digits radix most limit (c ∷ s) v n = elim (to_digit radix c) [
  | none ↦ some (v, n, c ∷ s)
  | some d ↦
      if ltb limit (v * radix + d) || ltb most (n + 1)
      then none
      else read_digits radix most limit s (v * radix + d) (n + 1)
]

abbrev leads_with_zero : Text → Bool
leads_with_zero [] = false
leads_with_zero (c ∷ s) = c == b'0'

read_number : ℕ → ℕ → Bool → ℕ → Text → Option (ℕ × Text)
read_number radix most zeros limit s = elim (read_digits radix most limit s 0 0) [
  | none ↦ none
  | some (v, n, rest) ↦
      if n == 0 || (not zeros && leads_with_zero s && ltb 1 n) then none else some (v, rest)
]

read_octet : Text → Option (ℕ × Text)
read_octet s = read_number 10 3 false 255 s

read_next_octet : Text → Option (ℕ × Text)
read_next_octet s = do rest ← read_char b'.' s; read_octet rest

read_v4 : Text → Option (ℕ × Text)
read_v4 s = do
  (a, s1) ← read_octet s
  (b, s2) ← read_next_octet s1
  (c, s3) ← read_next_octet s2
  (d, s4) ← read_next_octet s3
  some (((a * 256 + b) * 256 + c) * 256 + d, s4)

-- The separator stands before every group but the first.
read_colon : Bool → Text → Option Text
read_colon true s = some s
read_colon false s = read_char b':' s

-- An embedded IPv4 address takes two slots, so one must be left after this one.
read_embedded : ℕ → Bool → Text → Option (ℕ × Text)
read_embedded zero first s = none
read_embedded (suc k) first s = do rest ← read_colon first s; read_v4 rest

read_group : Bool → Text → Option (ℕ × Text)
read_group first s = do rest ← read_colon first s; read_number 16 4 true 65535 rest

-- `read_groups` over the slots that are left; the flag says that an IPv4 part ended the groups.
read_groups : ℕ → Bool → Text → List ℕ × Bool × Text
read_groups zero first s = ([], false, s)
read_groups (suc k) first s = elim (read_embedded k first s) [
  | some (x, rest) ↦ ((x / 65536) ∷ (x % 65536) ∷ [], true, rest)
  | none ↦ elim (read_group first s) [
    | none ↦ ([], false, s)
    | some (g, rest) ↦ let (gs, e, t) = read_groups k false rest in (g ∷ gs, e, t)
  ]
]

value_from : ℕ → List ℕ → ℕ
value_from acc [] = acc
value_from acc (g ∷ gs) = value_from (acc * 65536 + g) gs

-- `::` and the groups behind it, with zeros put in up to eight.
read_after : List ℕ → Text → Option (ℕ × Text)
read_after head s = do
  s1 ← read_char b':' s
  s2 ← read_char b':' s1
  let (tail, _, s3) = read_groups (7 - length head) true s2
  some (value_from 0 (head ++ replicate (8 - length head - length tail) 0 ++ tail), s3)

read_v6 : Text → Option (ℕ × Text)
read_v6 s =
    let (head, ended, rest) = read_groups 8 true s in
    if length head == 8
    then some (value_from 0 head, rest)
    else if ended
    then none
    else read_after head rest

abbrev at_end : (ℕ → IpAddr) → Option (ℕ × Text) → Option IpAddr
at_end f none = none
at_end f (some (x, [])) = some (f x)
at_end f (some (x, c ∷ s)) = none

abbrev read_ip : Option (ℕ × Text) → Option (ℕ × Text) → Option IpAddr
read_ip none six = at_end v6 six
read_ip (some r) six = at_end v4 (some r)

unfoldable pub parse_ip : Text → Option IpAddr
unfolding to_digit read_char read_digits read_number read_octet read_next_octet read_v4 read_colon
    read_embedded read_group read_groups value_from read_after read_v6
parse_ip s = read_ip (read_v4 s) (read_v6 s)

v4_test : parse_ip (codes "192.168.1.10") ≡ some (v4 0xc0a8_010a)
unfolding parse_ip
v4_test = refl

leading_zero_test : parse_ip (codes "192.168.01.10") ≡ none
unfolding parse_ip
leading_zero_test = refl

v6_test : parse_ip (codes "2001:db8::1") ≡ some (v6 0x2001_0db8_0000_0000_0000_0000_0000_0001)
unfolding parse_ip
v6_test = refl

mapped_test : parse_ip (codes "::ffff:1.2.3.4") ≡ some (v6 0xffff_0102_0304)
unfolding parse_ip
mapped_test = refl

-- ===== src/Dns/Name.antt =====
-- `parse_dns_name` of service/src/dns_cache.rs. A read outside the packet, on which Rust panics, and
-- running out of fuel are both `none`; the function's own `None` is `some none`.
pub mod Total
use ceasefire.Prelude.{
  ℕ, zero, suc, ◌+◌, ◌*◌, ◌%◌, ◌≡◌, refl, Bool, ◌||◌, List, [], ◌∷◌, ◌++◌, map, Option, none, some,
  ltb, leb, ◌==◌, if◌then◌else◌, length, get_elem?, is_empty, unwrap_or,
}
use ceasefire.Prelude.Maybe.{◌>>=◌}
use ceasefire.Text.{Text, codes}

abbrev pub push_char : ℕ → Option Text → Option Text
push_char ch none = none
push_char ch (some rest) = some (ch ∷ rest)

-- The loop over the characters of a label: only printable ASCII is allowed.
read_label : List ℕ → ℕ → ℕ → Option (Option Text)
read_label packet zero pos = some (some [])
read_label packet (suc n) pos = do
  ch ← get_elem? packet pos
  let rest = read_label packet n (pos + 1)
  if ltb ch 32 || ltb 126 ch then some none else rest >>= λ r. some (push_char ch r)

-- The separator stands before every label but the first.
abbrev pub join : Text → Text → Text
join [] label = label
join (c ∷ name) label = c ∷ name ++ (b'.' ∷ label)

-- The name, unless it is empty, and the offset behind it.
abbrev pub finish : Text → ℕ → Option (Text × ℕ)
finish [] offset = none
finish (c ∷ name) offset = some (c ∷ name, offset)

-- Where the loop goes on: the offset, the offset behind the first pointer once there is one
-- (`jumped`), the number of pointers followed, and the name so far.
abbrev pub Continue : Type 0
Continue = ℕ → Option ℕ → ℕ → Text → Option (Option (Text × ℕ))

-- A compression pointer.
follow : List ℕ → Continue → ℕ → ℕ → Option ℕ → ℕ → Text → Option (Option (Text × ℕ))
follow packet continue len pos after jumps name =
    if leb (length packet) (pos + 1)
    then some none
    else get_elem? packet (pos + 1) >>= λ low.
        if ltb 5 (jumps + 1)
        then some none
        else continue (len % 64 * 256 + low) (some (unwrap_or (pos + 2) after)) (jumps + 1) name

with_label : Continue → ℕ → Option ℕ → ℕ → Text → Option Text → Option (Option (Text × ℕ))
with_label continue pos after jumps name none = some none
with_label continue pos after jumps name (some label) = continue pos after jumps (join name label)

-- A label of `len` bytes.
read_on : List ℕ → Continue → ℕ → ℕ → Option ℕ → ℕ → Text → Option (Option (Text × ℕ))
read_on packet continue len pos after jumps name =
    if ltb 63 len || leb (length packet) (pos + len)
    then some none
    else read_label packet len (pos + 1) >>= with_label continue (pos + 1 + len) after jumps name

-- The body of the loop.
name_step : List ℕ → Continue → Continue
name_step packet continue pos after jumps name =
    if leb (length packet) pos
    then some none
    else get_elem? packet pos >>= λ len.
        if leb 192 len
        then follow packet continue len pos after jumps name
        else if len == 0
        then some (finish name (unwrap_or (pos + 1) after))
        else read_on packet continue len pos after jumps name

name_loop : ℕ → List ℕ → Continue
name_loop zero packet pos after jumps name = none
name_loop (suc fuel) packet pos after jumps name =
    name_step packet (name_loop fuel packet) pos after jumps name

-- Six runs of at most the packet's length, as the pointers are limited to five.
abbrev pub name_fuel : List ℕ → ℕ
name_fuel packet = 6 * (length packet + 1)

unfoldable pub parse_dns_name : List ℕ → ℕ → Option (Option (Text × ℕ))
unfolding name_loop name_step follow read_on with_label read_label
parse_dns_name packet offset = name_loop (name_fuel packet) packet offset none 0 []

abbrev pub example_com : List ℕ
example_com = 7 ∷ codes "example" ++ (3 ∷ codes "com") ++ (0 ∷ [])

name_test : parse_dns_name example_com 0 ≡ some (some (codes "example.com", 13))
unfolding parse_dns_name
name_test = refl

loop_test : parse_dns_name (0xc0 ∷ 0 ∷ []) 0 ≡ some none
unfolding parse_dns_name
loop_test = refl

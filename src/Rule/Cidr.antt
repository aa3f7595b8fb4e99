-- ===== src/Rule/Cidr.antt =====
-- `validate_cidr`, `parse_cidr` and `cidr_matches` of service/src/rule/validator.rs.
pub mod Laws
use ceasefire.Prelude.{
  ℕ, ◌+◌, ◌-◌, ◌%◌, ◌≤◌, ◌≡◌, refl, Bool, true, false, List, [], ◌∷◌, Option, none, some, Result,
  ok, err, ltb, leb, ◌==◌, if◌then◌else◌, ◌>>=◌,
}
use ceasefire.Text.{Text, split, codes}
use ceasefire.Text.Number.{parse_uint}
use ceasefire.Net.{IpAddr, v4, v6}
use ceasefire.Net.Parse.{parse_ip}
use ceasefire.Net.Prefix.{clear_low}
use ceasefire.Errors.{
  ServiceError, validation, invalid_cidr_format, invalid_ip_address, invalid_subnet_mask,
  mask_too_long, invalid_target,
}

-- The number of bits of an address of the family.
abbrev pub family_bits : IpAddr → ℕ
family_bits (v4 x) = 32
family_bits (v6 x) = 128

checked_mask : Option IpAddr → Option ℕ → Result ServiceError (IpAddr × ℕ)
checked_mask none mask = err (validation invalid_ip_address)
checked_mask (some ip) none = err (validation invalid_subnet_mask)
checked_mask (some ip) (some mask) =
    if ltb (family_bits ip) mask then err (validation mask_too_long) else ok (ip, mask)

cidr_of_parts : List Text → Result ServiceError (IpAddr × ℕ)
unfolding checked_mask
cidr_of_parts (a ∷ m ∷ []) = checked_mask (parse_ip a) (parse_uint 255 m)
cidr_of_parts _ = err (validation invalid_cidr_format)

unfoldable pub validate_cidr : Text → Result ServiceError (IpAddr × ℕ)
unfolding cidr_of_parts
validate_cidr cidr = cidr_of_parts (split b'/' cidr)

-- `32 - bits` on `u8` wraps in a release build, and `<<` takes its amount modulo the width.
unfoldable pub shift_u32 : ℕ → ℕ
shift_u32 bits = (32 + 256 - bits) % 256 % 32

-- `x & mask` with `mask = if bits == 0 { 0 } else { !0u32 << (32 - bits) }`.
unfoldable pub masked_v4 : ℕ → ℕ → ℕ
unfolding shift_u32
masked_v4 bits x = if bits == 0 then 0 else clear_low (shift_u32 bits) x

-- `x & mask` with the mask `0`, `!0u128` from 128 bits on, and `!0u128 << (128 - bits)` between.
unfoldable pub masked_v6 : ℕ → ℕ → ℕ
masked_v6 bits x = if bits == 0 then 0 else if leb 128 bits then x else clear_low (128 - bits) x

unfoldable pub same_network : IpAddr → ℕ → IpAddr → Bool
unfolding masked_v4 masked_v6
same_network (v4 a) bits (v4 b) = masked_v4 bits a == masked_v4 bits b
same_network (v6 a) bits (v6 b) = masked_v6 bits a == masked_v6 bits b
same_network _ bits _ = false

-- `addr.parse::<IpAddr>()` with the error of `cidr_matches`.
unfoldable pub target_ip : Option IpAddr → Result ServiceError IpAddr
target_ip none = err (validation invalid_target)
target_ip (some ip) = ok ip

unfoldable pub cidr_matches : Text → Text → Result ServiceError Bool
unfolding target_ip
cidr_matches cidr addr = do
  (cidr_ip, mask_bits) ← validate_cidr cidr
  target ← target_ip (parse_ip addr)
  ok (same_network cidr_ip mask_bits target)

cidr_test : cidr_matches (codes "10.1.0.0/16") (codes "10.1.200.7") ≡ ok true
unfolding cidr_matches validate_cidr split parse_uint parse_ip same_network
cidr_test = refl

family_test : cidr_matches (codes "0.0.0.0/0") (codes "::1") ≡ ok false
unfolding cidr_matches validate_cidr split parse_uint parse_ip same_network
family_test = refl

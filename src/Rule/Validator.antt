-- ===== src/Rule/Validator.antt =====
-- `validate_rule` of service/src/rule/validator.rs.
pub mod Guarantees
pub mod Accepted
use ceasefire.Prelude.{
  ℕ, Bool, true, false, not, ◌&&◌, ◌||◌, List, [], ◌∷◌, Option, none, some, Result, ok, err, ltb,
  leb, ◌==◌, if◌then◌else◌, ◌>>=◌, ◌>>◌, reject_if, is_empty, is_some,
}
use ceasefire.Prelude.Maybe
use ceasefire.Text.{Text, trim, utf16_len, contains_char, split, starts_with}
use ceasefire.Net.{IpAddr}
use ceasefire.Net.Parse.{parse_ip}
use ceasefire.Errors.{
  ServiceError, Message, validation, empty_name, invalid_ip_address, domain_and_address,
  invalid_domain, invalid_port_range, subnet_mask_out_of_range, invalid_process_path,
  process_path_too_long, invalid_local_address, local_mask_out_of_range, local_address_unsupported,
}
use ceasefire.Models.{Rule, PortRange, single, range}
use ceasefire.Rule.Cidr.{validate_cidr, family_bits}
use ceasefire.Rule.Domain.{Reason, validate_domain}

abbrev pub Checked : Type 0
Checked = Result ServiceError (Unit {0})

abbrev pub reject : Bool → Message → Checked
reject b m = reject_if b (validation m)

abbrev forget {ℓ} : {A : Type ℓ} → Result ServiceError A → Checked
forget (ok a) = ok tt
forget (err e) = err e

-- An address, in CIDR notation or plain.
unfoldable pub check_addr : Message → Option Text → Checked
check_addr bad none = ok tt
check_addr bad (some addr) =
    if contains_char b'/' addr
    then forget (validate_cidr addr)
    else reject (not (is_some (parse_ip addr))) bad

domain_result : Result Reason (Unit {0}) → Checked
domain_result (ok u) = ok tt
domain_result (err reason) = err (validation invalid_domain)

unfoldable pub check_domain : Option Text → Checked
unfolding domain_result
check_domain none = ok tt
check_domain (some domain) = domain_result (validate_domain domain)

check_port : Option PortRange → Checked
check_port none = ok tt
check_port (some (single p)) = ok tt
check_port (some (range start end)) = reject (ltb end start) invalid_port_range

-- The address in front of the prefix, `addr.split('/').next()`.
addr_part : List Text → Text
addr_part [] = []
addr_part (a ∷ rest) = a

bits_or_128 : Option IpAddr → ℕ
bits_or_128 none = 128
bits_or_128 (some ip) = family_bits ip

-- The longest mask that goes with an address: by its family, and 128 where it is absent or bad.
unfoldable pub max_mask : Option Text → ℕ
unfolding addr_part bits_or_128
max_mask none = 128
max_mask (some addr) = bits_or_128 (parse_ip (addr_part (split b'/' addr)))

check_mask : Message → Option Text → Option ℕ → Checked
check_mask bad addr none = ok tt
check_mask bad addr (some mask) = reject (ltb (max_mask addr) mask) bad

is_valid_path : Text → Bool
is_valid_path path =
    not (is_empty (trim path))
    && (contains_char b'\\' path || contains_char b'/' path || starts_with (b'.' ∷ b'\\' ∷ []) path)

check_path : Option Text → Checked
unfolding is_valid_path
check_path none = ok tt
check_path (some path) = do
  reject (not (is_valid_path path)) invalid_process_path
  reject (leb 260 (utf16_len path)) process_path_too_long

unfoldable pub validate_rule : Rule → Checked
unfolding check_domain check_port check_mask check_path
validate_rule rule = do
  reject (is_empty (trim rule.name)) empty_name
  check_addr invalid_ip_address rule.remote_addr
  reject (is_some rule.remote_domain && is_some rule.remote_addr) domain_and_address
  check_domain rule.remote_domain
  check_port rule.remote_port
  check_port rule.local_port
  check_mask subnet_mask_out_of_range rule.remote_addr rule.remote_addr_mask
  check_path rule.process_path
  check_addr invalid_local_address rule.local_addr
  check_mask local_mask_out_of_range rule.local_addr rule.local_addr_mask
  reject (is_some rule.local_addr || is_some rule.local_addr_mask) local_address_unsupported

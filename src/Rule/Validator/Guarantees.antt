-- ===== src/Rule/Validator/Guarantees.antt =====
-- What a rule that `validate_rule` accepts is known to satisfy.
use ceasefire.Prelude.{
  ℕ, ◌≤◌, ◌≡◌, refl, Bool, true, false, not, ◌&&◌, Option, none, some, Result, ok, err, ltb, ◌>>◌,
  is_some, is_empty, arith, ◌||◌,
}
use ceasefire.Text.{Text, trim, contains_char}
use ceasefire.Net.{IpAddr}
use ceasefire.Net.Parse.{parse_ip}
use ceasefire.Rule.Cidr.{validate_cidr}
use ceasefire.Errors.{
  ServiceError, Message, invalid_ip_address, subnet_mask_out_of_range, empty_name,
  invalid_port_range, local_address_unsupported, domain_and_address, invalid_local_address,
  local_mask_out_of_range,
}
use ceasefire.Models.{Rule, PortRange, single, range}
use ceasefire.Rule.Validator.{
  Checked, forget, reject, check_addr, check_mask, check_port, check_domain, check_path, max_mask,
  validate_rule,
}

pub record Guarantees (rule : Rule) : Type 0 where
  pub named : is_empty (trim rule.name) ≡ false
  pub address : check_addr invalid_ip_address rule.remote_addr ≡ ok tt
  pub one_target : is_some rule.remote_domain && is_some rule.remote_addr ≡ false
  pub remote_ports : (s e : ℕ) → rule.remote_port ≡ some (range s e) → s ≤ e
  pub local_ports : (s e : ℕ) → rule.local_port ≡ some (range s e) → s ≤ e
  pub mask : (m : ℕ) → rule.remote_addr_mask ≡ some m → m ≤ max_mask rule.remote_addr
  pub no_local_addr : rule.local_addr ≡ none
  pub no_local_mask : rule.local_addr_mask ≡ none

then_ok : (m k : Checked) → (m >> k) ≡ ok tt → (m ≡ ok tt) × (k ≡ ok tt)
then_ok (ok tt) k h = (refl, h)
then_ok (err e) k h = cc

reject_ok : (b : Bool) (m : Message) → reject b m ≡ ok tt → b ≡ false
reject_ok true m h = cc
reject_ok false m h = refl

check_port_ok :
    (p : Option PortRange) (s e : ℕ) → check_port p ≡ ok tt → p ≡ some (range s e) → s ≤ e
unfolding check_port
check_port_ok none s e h q = cc
check_port_ok (some (single x)) s e h q = cc
check_port_ok (some (range a b)) s e h q =
    let t = reject_ok (ltb b a) invalid_port_range h in
    let x : a ≡ s = cc in let y : b ≡ e = cc in ground arith

check_mask_ok :
    (bad : Message) (addr : Option Text) (mask : Option ℕ) (m : ℕ)
    → check_mask bad addr mask ≡ ok tt
    → mask ≡ some m
    → m ≤ max_mask addr
unfolding check_mask
check_mask_ok bad addr none m h q = cc
check_mask_ok bad addr (some n) m h q =
    let t = reject_ok (ltb (max_mask addr) n) bad h in let x : n ≡ m = cc in ground arith

no_value {ℓ} : {A : Type ℓ} (o : Option A) → is_some o ≡ false → o ≡ none
no_value none h = refl
no_value (some a) h = cc

or_parts : (a b : Bool) → (a || b) ≡ false → (a ≡ false) × (b ≡ false)
or_parts a b h = ground arith

-- The checks that a rule accepted by `validate_rule` has passed.
pub validate_rule-Guarantees : (rule : Rule) → validate_rule rule ≡ ok tt → Guarantees rule
unfolding validate_rule
validate_rule-Guarantees rule h =
    let (h1, k1) = then_ok (reject (is_empty (trim rule.name)) empty_name) _ h in
    let (h2, k2) = then_ok (check_addr invalid_ip_address rule.remote_addr) _ k1 in
    let (h3, k3) =
      then_ok (reject (is_some rule.remote_domain && is_some rule.remote_addr) domain_and_address) _
        k2 in
    let (h4, k4) = then_ok (check_domain rule.remote_domain) _ k3 in
    let (h5, k5) = then_ok (check_port rule.remote_port) _ k4 in
    let (h6, k6) = then_ok (check_port rule.local_port) _ k5 in
    let (h7, k7) =
      then_ok (check_mask subnet_mask_out_of_range rule.remote_addr rule.remote_addr_mask) _ k6 in
    let (h8, k8) = then_ok (check_path rule.process_path) _ k7 in
    let (h9, k9) = then_ok (check_addr invalid_local_address rule.local_addr) _ k8 in
    let (h10, h11) =
      then_ok (check_mask local_mask_out_of_range rule.local_addr rule.local_addr_mask) _ k9 in
    let (a, b) = or_parts _ _ (reject_ok _ local_address_unsupported h11) in
    record {
      named = reject_ok _ empty_name h1;
      address = h2;
      one_target = reject_ok _ domain_and_address h3;
      remote_ports = λ s e q. check_port_ok rule.remote_port s e h5 q;
      local_ports = λ s e q. check_port_ok rule.local_port s e h6 q;
      mask = λ m q.
          check_mask_ok subnet_mask_out_of_range rule.remote_addr rule.remote_addr_mask m h7 q;
      no_local_addr = no_value _ a;
      no_local_mask = no_value _ b;
    }

forget_ok :
    (r : Result ServiceError (IpAddr × ℕ)) → forget r ≡ ok tt → (n : IpAddr × ℕ) × (r ≡ ok n)
forget_ok (ok n) h = (n, refl)
forget_ok (err e) h = cc

parsed_ok :
    (bad : Message) (o : Option IpAddr)
    → reject (not (is_some o)) bad ≡ ok tt
    → (ip : IpAddr) × (o ≡ some ip)
parsed_ok bad none h = cc
parsed_ok bad (some ip) h = (ip, refl)

pub check_addr-cidr :
    (bad : Message) (addr : Text)
    → contains_char b'/' addr ≡ true
    → check_addr bad (some addr) ≡ ok tt
    → (n : IpAddr × ℕ) × (validate_cidr addr ≡ ok n)
unfolding check_addr
check_addr-cidr bad addr c h = forget_ok (validate_cidr addr) (rw c at h)

pub check_addr-plain :
    (bad : Message) (addr : Text)
    → contains_char b'/' addr ≡ false
    → check_addr bad (some addr) ≡ ok tt
    → (ip : IpAddr) × (parse_ip addr ≡ some ip)
unfolding check_addr
check_addr-plain bad addr c h = parsed_ok bad (parse_ip addr) (rw c at h)

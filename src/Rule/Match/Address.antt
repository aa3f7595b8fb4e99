-- ===== src/Rule/Match/Address.antt =====
-- The address conditions of a rule decide membership in a network.
use ceasefire.Prelude.{
  ℕ, ◌≤◌, ◌≡◌, refl, Bool, true, false, Option, none, some, Result, ok, err, ◌>>=◌, Bool-cases, inl,
  inr, arith,
}
use ceasefire.Text.{Text, contains_char}
use ceasefire.Text.Laws.{split_of_absent}
use ceasefire.Net.{IpAddr, InRange}
use ceasefire.Net.Parse.{parse_ip}
use ceasefire.Net.Parse.Range.{parse_ip-InRange}
use ceasefire.Errors.{ServiceError}
use ceasefire.Rule.Cidr.{validate_cidr, cidr_matches, target_ip, family_bits, same_network}
use ceasefire.Rule.Cidr.Laws.{Fits, validate_cidr-Fits}
use ceasefire.Rule.Cover.{parse_field, ok_part, with_mask}
use ceasefire.Rule.Network.{
  contains_ip, same_network-contains_ip, in_network-contains_ip, mask_or_full,
}
use ceasefire.Rule.Validator.{max_mask}
use ceasefire.Rule.Match.{or_false, both_parsed, address_matches}

-- An explicit mask is no longer than `validate_rule` lets it be.
abbrev pub MaskFits : Text → Option ℕ → Type 0
MaskFits addr mask = (m : ℕ) → mask ≡ some m → m ≤ max_mask (some addr)

-- The address of a connection lies in the network of a field, both being well formed.
abbrev pub field_contains : Option (IpAddr × ℕ) → Option IpAddr → Bool
field_contains (some (ip, bits)) (some c) = contains_ip ip bits c
field_contains _ _ = false

MaskFits-family :
    (addr : Text) (mask : Option ℕ) (ip : IpAddr)
    → contains_char b'/' addr ≡ false
    → parse_ip addr ≡ some ip
    → MaskFits addr mask
    → mask_or_full mask ip ≤ family_bits ip
unfolding max_mask
MaskFits-family addr none ip plain parsed fits = omega arith
MaskFits-family addr (some m) ip plain parsed fits =
    let h : m ≤ max_mask (some addr) = fits m refl in
    rw (split_of_absent b'/' addr plain, parsed) at h

Parsed : Option IpAddr → Type 0
Parsed t = (c : IpAddr) → t ≡ some c → InRange c

cidr_contains :
    (r : Result ServiceError (IpAddr × ℕ)) (t : Option IpAddr)
    → ((n : IpAddr × ℕ) → r ≡ ok n → Fits n)
    → Parsed t
    → or_false (r >>= λ n. target_ip t >>= λ c. ok (same_network n.0 n.1 c))
      ≡ field_contains (ok_part r) t
unfolding or_false target_ip ok_part Parsed
cidr_contains (err e) none fits parsed = refl
cidr_contains (err e) (some c) fits parsed = refl
cidr_contains (ok n) none fits parsed = refl
cidr_contains (ok (ip, bits)) (some c) fits parsed =
    let f = fits (ip, bits) refl in
    same_network-contains_ip ip bits c f.range (parsed c refl) f.bits

plain_contains :
    (mask : Option ℕ) (r t : Option IpAddr)
    → ((ip : IpAddr) → r ≡ some ip → mask_or_full mask ip ≤ family_bits ip)
    → Parsed r
    → Parsed t
    → both_parsed mask r t ≡ field_contains (with_mask mask r) t
unfolding both_parsed with_mask Parsed
plain_contains none none t fits pr pt = refl
plain_contains (some m) none t fits pr pt = refl
plain_contains none (some ip) none fits pr pt = refl
plain_contains (some m) (some ip) none fits pr pt = refl
plain_contains none (some ip) (some c) fits pr pt =
    in_network-contains_ip ip none c (pr ip refl) (pt c refl) (fits ip refl)
plain_contains (some m) (some ip) (some c) fits pr pt =
    in_network-contains_ip ip (some m) c (pr ip refl) (pt c refl) (fits ip refl)

-- A rule's address condition holds exactly of the connections whose address lies in the network
-- that the field denotes, whichever notation it is written in, if an explicit mask is no longer
-- than the validator allows.
pub address_matches-field_contains :
    (addr : Text) (mask : Option ℕ) (conn : Text)
    → MaskFits addr mask
    → address_matches addr mask conn ≡ field_contains (parse_field addr mask) (parse_ip conn)
unfolding address_matches parse_field cidr_matches Parsed
address_matches-field_contains addr mask conn fits = elim (Bool-cases (contains_char b'/' addr)) [
  | inl cidr ↦ rw cidr (
      cidr_contains (validate_cidr addr) (parse_ip conn) (λ n. validate_cidr-Fits addr)
        (λ c. parse_ip-InRange conn))
  | inr plain ↦ rw plain (
      plain_contains mask (parse_ip addr) (parse_ip conn)
        (λ ip p. MaskFits-family addr mask ip plain p fits) (λ c. parse_ip-InRange addr)
        (λ c. parse_ip-InRange conn))
]

pub field_parts :
    (f : Option (IpAddr × ℕ)) (c : Option IpAddr)
    → field_contains f c ≡ true
    → (n : IpAddr × ℕ) × (ip : IpAddr) × (f ≡ some n)
      × (c ≡ some ip)
      × (contains_ip n.0 n.1 ip ≡ true)
field_parts none none h = cc
field_parts none (some c) h = cc
field_parts (some n) none h = cc
field_parts (some (ip, bits)) (some c) h = ((ip, bits), c, refl, refl, h)

field_Fits :
    (mask : Option ℕ) (r : Option IpAddr) {n : IpAddr × ℕ}
    → ((ip : IpAddr) → r ≡ some ip → mask_or_full mask ip ≤ family_bits ip)
    → Parsed r
    → with_mask mask r ≡ some n
    → Fits n
unfolding with_mask Parsed
field_Fits mask none fits pr e = ground arith
field_Fits none (some ip) {n} fits pr e =
    let q : n ≡ (ip, family_bits ip) = ground arith in
    rw q (record { range = pr ip refl; bits = fits ip refl })
field_Fits (some m) (some ip) {n} fits pr e =
    let q : n ≡ (ip, m) = ground arith in rw q (record { range = pr ip refl; bits = fits ip refl })

ok_part-Fits :
    (r : Result ServiceError (IpAddr × ℕ)) {n : IpAddr × ℕ}
    → ((n : IpAddr × ℕ) → r ≡ ok n → Fits n)
    → ok_part r ≡ some n
    → Fits n
unfolding ok_part
ok_part-Fits (err e) fits h = cc
ok_part-Fits (ok m) {n} fits h = let q : n ≡ m = ground arith in rw q (fits m refl)

-- The network that a field denotes fits its family.
pub parse_field-Fits :
    (addr : Text) (mask : Option ℕ) {n : IpAddr × ℕ}
    → MaskFits addr mask
    → parse_field addr mask ≡ some n
    → Fits n
unfolding parse_field Parsed
parse_field-Fits addr mask {n} fits e = elim (Bool-cases (contains_char b'/' addr)) [
  | inl cidr ↦ ok_part-Fits (validate_cidr addr) (λ m. validate_cidr-Fits addr) (rw cidr at e)
  | inr plain ↦
      field_Fits mask (parse_ip addr) (λ ip p. MaskFits-family addr mask ip plain p fits)
        (λ c. parse_ip-InRange addr) (rw plain at e)
]

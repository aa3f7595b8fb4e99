-- ===== src/Rule/Validator/Accepted.antt =====
-- What the fields of a rule that `validate_rule` of service/src/rule/validator.rs accepts say.
use ceasefire.Prelude.{
  ℕ, ◌≤◌, ◌≡◌, ◌⊎◌, refl, sym, ap, ◌∙◌, false, ◌&&◌, List, [], ◌∷◌, ◌++◌, Option, none, some, ok,
  ◌==◌, is_some, is_empty, arith, Bool-cases, inl, inr,
}
use ceasefire.Text.{Text, trim, contains_char, split}
use ceasefire.Text.Laws.{split_of_absent}
use ceasefire.Text.Number.{parse_uint}
use ceasefire.Net.{IpAddr, v4, v6}
use ceasefire.Net.Parse.{parse_ip}
use ceasefire.Errors.{invalid_ip_address}
use ceasefire.Models.{Rule, range}
use ceasefire.Rule.Cidr.{family_bits}
use ceasefire.Rule.Cidr.Laws.{validate_cidr-parts}
use ceasefire.Rule.Validator.{check_addr, max_mask, addr_part, bits_or_128, validate_rule}
use ceasefire.Rule.Validator.Guarantees.{
  validate_rule-Guarantees, check_addr-cidr, check_addr-plain,
}

-- The parts of a text with the separator between them.
glue : ℕ → List Text → Text
glue c [] = []
glue c (a ∷ []) = a
glue c (a ∷ b ∷ l) = a ++ c ∷ glue c (b ∷ l)

glue_head : (c x : ℕ) (a : Text) (l : List Text) → glue c ((x ∷ a) ∷ l) ≡ x ∷ glue c (a ∷ l)
unfolding glue
glue_head c x a [] = refl
glue_head c x a (b ∷ l) = refl

split_cons : (c : ℕ) (s : Text) → (a : Text) × (l : List Text) × (split c s ≡ a ∷ l)
unfolding split
split_cons c [] = ([], [], refl)
split_cons c (x ∷ s) =
    let (a, l, q) = split_cons c s in
    elim (Bool-cases (x == c)) [ inl g ↦ ([], split c s, rw g) | inr g ↦ (x ∷ a, l, rw (g, q)) ]

glue-split : (c : ℕ) (s : Text) → glue c (split c s) ≡ s
unfolding glue split
glue-split c [] = refl
glue-split c (x ∷ s) =
    let (a, l, q) = split_cons c s in
    let whole : glue c (a ∷ l) ≡ s = ap (glue c) (sym q) ∙ glue-split c s in
    elim (Bool-cases (x == c)) [
      | inl g ↦ let e : x ≡ c = ground arith in rw (g, q, e) (ap (λ t. c ∷ t) whole)
      | inr g ↦ rw (g, q) (glue_head c x a l ∙ ap (λ t. x ∷ t) whole)
    ]

-- The bits of an address.
abbrev pub width : IpAddr → ℕ
width (v4 x) = 32
width (v6 x) = 128

family_bits-width : (ip : IpAddr) → family_bits ip ≡ width ip
family_bits-width (v4 x) = refl
family_bits-width (v6 x) = refl

-- The text is the address, or the address, a slash and a prefix that is no longer than it.
abbrev pub Names : Text → IpAddr → Type 0
Names addr ip =
    (parse_ip addr ≡ some ip)
    ⊎ ((a : Text) × (m : Text) × (bits : ℕ) × (addr ≡ a ++ b'/' ∷ m)
        × (parse_ip a ≡ some ip)
        × (parse_uint 255 m ≡ some bits)
        × (bits ≤ width ip))

abbrev pub Within : ℕ → Option ℕ → Type 0
Within bits none = Unit {0}
Within bits (some m) = m ≤ bits

-- An address that is there can be read, and a mask is no longer than it.
abbrev pub Addressed : Option Text → Option ℕ → Type 0
Addressed none mask = Within 128 mask
Addressed (some addr) mask = (ip : IpAddr) × Names addr ip × Within (width ip) mask

within : (bits : ℕ) (mask : Option ℕ) → ((m : ℕ) → mask ≡ some m → m ≤ bits) → Within bits mask
within bits none h = tt
within bits (some m) h = h m refl

max_mask_of :
    (addr a : Text) (l : List Text) (ip : IpAddr)
    → split b'/' addr ≡ a ∷ l
    → parse_ip a ≡ some ip
    → max_mask (some addr) ≡ width ip
unfolding max_mask addr_part bits_or_128
max_mask_of addr a l ip q e = rw (q, e) (family_bits-width ip)

addressed :
    (o : Option Text) (mask : Option ℕ)
    → check_addr invalid_ip_address o ≡ ok tt
    → ((m : ℕ) → mask ≡ some m → m ≤ max_mask o)
    → Addressed o mask
unfolding max_mask glue
addressed none mask h fits = within 128 mask fits
addressed (some addr) mask h fits = elim (Bool-cases (contains_char b'/' addr)) [
  | inl slash ↦
      let (n, valid) = check_addr-cidr invalid_ip_address addr slash h in
      let (a, m, q, e, prefix, small) = validate_cidr-parts addr valid in
      let whole : addr ≡ a ++ b'/' ∷ m =
        sym (glue-split b'/' addr) ∙ ap (glue b'/') q ∙ glue_two a m in
      let ip : IpAddr = n.0 in
      let w : family_bits ip ≡ width ip = family_bits-width ip in
      (
        ip,
        inr (a, m, n.1, whole, e, prefix, rw w at small),
        within (width ip) mask (λ x s. rw (max_mask_of addr a (m ∷ []) ip q e) at (fits x s)),
      )
  | inr plain ↦
      let (ip, e) = check_addr-plain invalid_ip_address addr plain h in
      (
        ip,
        inl e,
        within (width ip) mask (λ x s.
            rw (max_mask_of addr addr [] ip (split_of_absent b'/' addr plain) e) at (fits x s)),
      )
]
  where
    glue_two : (a m : Text) → glue b'/' (a ∷ m ∷ []) ≡ a ++ b'/' ∷ m
    glue_two a m = refl

pub record Accepted (rule : Rule) : Type 0 where
  pub named : is_empty (trim rule.name) ≡ false
  pub remote : Addressed rule.remote_addr rule.remote_addr_mask
  pub one_target : is_some rule.remote_domain && is_some rule.remote_addr ≡ false
  pub remote_ports : (s e : ℕ) → rule.remote_port ≡ some (range s e) → s ≤ e
  pub local_ports : (s e : ℕ) → rule.local_port ≡ some (range s e) → s ≤ e
  pub no_local_addr : rule.local_addr ≡ none
  pub no_local_mask : rule.local_addr_mask ≡ none

-- A rule that `validate_rule` accepts has a name that is not blank; a remote address, if it has one,
-- that is read as an address, alone or before a slash and a prefix of at most 32 or 128 bits by its
-- family, with a mask of at most as many bits (of at most 128 without an address); not both an
-- address and a domain; port ranges in order; and no local address.
pub validate_rule-Accepted : (rule : Rule) → validate_rule rule ≡ ok tt → Accepted rule
validate_rule-Accepted rule h =
    let g = validate_rule-Guarantees rule h in
    record {
      named = g.named;
      remote = addressed rule.remote_addr rule.remote_addr_mask g.address g.mask;
      one_target = g.one_target;
      remote_ports = g.remote_ports;
      local_ports = g.local_ports;
      no_local_addr = g.no_local_addr;
      no_local_mask = g.no_local_mask;
    }

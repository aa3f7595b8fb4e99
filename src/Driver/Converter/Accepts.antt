-- ===== src/Driver/Converter/Accepts.antt =====
-- Every rule that `validate_rule` accepts converts to the driver's record.
use ceasefire.Prelude.{
  ℕ, ◌≤◌, ◌≡◌, ◌≢◌, refl, sym, ◌∙◌, true_not_false, Bool, true, false, List, [], ◌∷◌, Option, none,
  some, Result, ok, err, ltb, ◌==◌, if◌then◌else◌, Bool-cases, inl, inr, arith,
}
use ceasefire.Text.{Text, rsplit_once, contains_char, split, onto_head}
use ceasefire.Text.Laws.{split_of_absent}
use ceasefire.Net.{IpAddr, v4, v6}
use ceasefire.Net.Parse.{parse_ip}
use ceasefire.Errors.{ServiceError, Message, invalid_ip_address}
use ceasefire.Models.{Rule}
use ceasefire.Rule.Cidr.{validate_cidr, family_bits}
use ceasefire.Rule.Cidr.Laws.{validate_cidr-parts}
use ceasefire.Rule.Validator.Guarantees.{
  validate_rule-Guarantees, check_addr-cidr, check_addr-plain,
}
use ceasefire.Rule.Validator.{check_addr, max_mask, validate_rule}
use ceasefire.Driver.Converter.{
  DriverRuleInput, from_rule, convert_addr, addr_parts, prefixed_addr, wire_addr, Wire,
  driver_input,
}

rsplit_absent : (c : ℕ) (s : Text) → contains_char c s ≡ false → rsplit_once c s ≡ none
unfolding rsplit_once contains_char
rsplit_absent c [] h = refl
rsplit_absent c (x ∷ s) h = elim (Bool-cases (x == c)) [
  | inl g ↦ absurd (true_not_false (sym (first g) ∙ h))
  | inr g ↦ rw (rsplit_absent c s (sym (rest g) ∙ h), g)
]
  where
    first : (x == c) ≡ true → contains_char c (x ∷ s) ≡ true
    first g = rw g

    rest : (x == c) ≡ false → contains_char c (x ∷ s) ≡ contains_char c s
    rest g = rw g

split_nil : (c : ℕ) → split c [] ≡ [] ∷ []
unfolding split
split_nil c = refl

tail_eq : {a : Text} → ([] ∷ []) ≡ (a ∷ []) → [] ≡ a
tail_eq h = cc

tail_nil : {a b : Text} {l : List Text} → a ∷ l ≡ b ∷ [] → l ≡ []
tail_nil h = cc

nil_two : {a m : Text} → ([] ∷ []) ≢ (a ∷ m ∷ [])
nil_two h = cc

cut_two : {a m : Text} {l : List Text} → [] ∷ l ≡ a ∷ m ∷ [] → ([] ≡ a) × (l ≡ m ∷ [])
cut_two h = (cc, cc)

bound : (bits b : ℕ) {n : ℕ} → some bits ≡ some b → bits ≤ n → b ≤ n
bound bits b e h = let p : bits ≡ b = cc in rw (sym p) h

split_some : (c : ℕ) (s : Text) → split c s ≢ []
unfolding split
split_some c [] h = cc
split_some c (x ∷ s) h = elim (Bool-cases (x == c)) [
  | inl g ↦ nonempty (sym (cut g) ∙ h)
  | inr g ↦ onto_some x (split c s) (sym (kept g) ∙ h)
]
  where
    nonempty : {a : Text} {l : List Text} → a ∷ l ≢ []
    nonempty q = cc

    cut : (x == c) ≡ true → split c (x ∷ s) ≡ [] ∷ split c s
    cut g = rw g

    kept : (x == c) ≡ false → split c (x ∷ s) ≡ onto_head x (split c s)
    kept g = rw g

    onto_some : (y : ℕ) (l : List Text) → onto_head y l ≢ []
    onto_some y [] q = cc
    onto_some y (p ∷ ps) q = cc

split_cut : (c x : ℕ) (s : Text) → (x == c) ≡ true → split c (x ∷ s) ≡ [] ∷ split c s
unfolding split
split_cut c x s g = rw g

split_kept : (c x : ℕ) (s : Text) → (x == c) ≡ false → split c (x ∷ s) ≡ onto_head x (split c s)
unfolding split
split_kept c x s g = rw g

one_part :
    (x : ℕ) (l : List Text) (a : Text)
    → onto_head x l ≡ a ∷ []
    → l ≢ []
    → (p : Text) × (l ≡ p ∷ []) × (x ∷ p ≡ a)
one_part x [] a h n = absurd (n refl)
one_part x (p ∷ []) a h n = let e : x ∷ p ≡ a = cc in (p, refl, e)
one_part x (p ∷ q ∷ ps) a h n = cc

two_parts :
    (x : ℕ) (l : List Text) (a m : Text)
    → onto_head x l ≡ a ∷ m ∷ []
    → (p : Text) × (l ≡ p ∷ m ∷ []) × (x ∷ p ≡ a)
two_parts x [] a m h = cc
two_parts x (p ∷ []) a m h = cc
two_parts x (p ∷ q ∷ []) a m h = let e : x ∷ p ≡ a = cc in let f : q ≡ m = cc in (p, rw f, e)
two_parts x (p ∷ q ∷ r ∷ ps) a m h = cc

rsplit_one : (c : ℕ) (s a : Text) → split c s ≡ a ∷ [] → (rsplit_once c s ≡ none) × (s ≡ a)
unfolding rsplit_once
rsplit_one c [] a h = (refl, tail_eq (rw (split_nil c) at h))
rsplit_one c (x ∷ s) a h = elim (Bool-cases (x == c)) [
  | inl g ↦ absurd (split_some c s (tail_nil (sym (split_cut c x s g) ∙ h)))
  | inr g ↦
      let (p, q, e) = one_part x (split c s) a (sym (split_kept c x s g) ∙ h) (split_some c s) in
      let (ih, sp) = rsplit_one c s p q in (rw (ih, g), rw sp e)
]

rsplit_two : (c : ℕ) (s a m : Text) → split c s ≡ a ∷ m ∷ [] → rsplit_once c s ≡ some (a, m)
unfolding rsplit_once
rsplit_two c [] a m h = absurd (nil_two (sym (split_nil c) ∙ h))
rsplit_two c (x ∷ s) a m h = elim (Bool-cases (x == c)) [
  | inl g ↦
      let (e, f) = cut_two (sym (split_cut c x s g) ∙ h) in
      let (ih, sm) = rsplit_one c s m f in rw (ih, g, sm, e)
  | inr g ↦
      let (p, q, e) = two_parts x (split c s) a m (sym (split_kept c x s g) ∙ h) in
      rw (rsplit_two c s p m q, e)
]

max_mask_plain :
    (addr : Text) (ip : IpAddr)
    → contains_char b'/' addr ≡ false
    → parse_ip addr ≡ some ip
    → max_mask (some addr) ≡ family_bits ip
unfolding max_mask
max_mask_plain addr ip plain p = rw (split_of_absent b'/' addr plain, p)

abbrev converted : Wire → Result ServiceError Wire
converted w = ok w

pass :
    (b : Bool) (e : ServiceError) (w : Wire)
    → b ≡ false
    → (v : Wire) × ((if b then err e else converted w) ≡ converted v)
pass b e w h = (w, rw h)

wire_addr-ok :
    (bits : Option ℕ) (ip : IpAddr)
    → ((b : ℕ) → bits ≡ some b → b ≤ family_bits ip)
    → (w : Wire) × (wire_addr bits (some ip) ≡ ok w)
unfolding wire_addr
wire_addr-ok none (v4 x) h = (_, refl)
wire_addr-ok none (v6 x) h = (_, refl)
wire_addr-ok (some b) (v4 x) h =
    let k : b ≤ 32 = h b refl in let t : ltb 32 b ≡ false = ground arith in pass (ltb 32 b) _ _ t
wire_addr-ok (some b) (v6 x) h =
    let k : b ≤ 128 = h b refl in let t : ltb 128 b ≡ false = ground arith in pass (ltb 128 b) _ _ t

cidr_converts :
    (addr : Text) (mask : Option ℕ) {n : IpAddr × ℕ}
    → validate_cidr addr ≡ ok n
    → (w : Wire) × (convert_addr (some addr) mask ≡ ok w)
unfolding convert_addr addr_parts prefixed_addr
cidr_converts addr mask {n} h =
    let (a, m, s, p, q, fits) = validate_cidr-parts addr h in
    let (w, f) = wire_addr-ok (some (n.1)) (n.0) (λ b e. bound (n.1) b e fits) in
    (w, rw (rsplit_two b'/' addr a m s, q, p) f)

plain_converts :
    (addr : Text) (mask : Option ℕ) (ip : IpAddr)
    → contains_char b'/' addr ≡ false
    → parse_ip addr ≡ some ip
    → ((m : ℕ) → mask ≡ some m → m ≤ max_mask (some addr))
    → (w : Wire) × (convert_addr (some addr) mask ≡ ok w)
unfolding convert_addr addr_parts
plain_converts addr mask ip plain p fits =
    let most : max_mask (some addr) ≡ family_bits ip = max_mask_plain addr ip plain p in
    let (w, f) = wire_addr-ok mask ip (λ b e. rw most at fits b e) in
    (w, rw (rsplit_absent b'/' addr plain, p) f)

addr_converts :
    (bad : Message) (addr : Option Text) (mask : Option ℕ)
    → check_addr bad addr ≡ ok tt
    → ((m : ℕ) → mask ≡ some m → m ≤ max_mask addr)
    → (w : Wire) × (convert_addr addr mask ≡ ok w)
unfolding convert_addr
addr_converts bad none mask h fits = (_, refl)
addr_converts bad (some addr) mask h fits = elim (Bool-cases (contains_char b'/' addr)) [
  | inl cidr ↦ let (n, e) = check_addr-cidr bad addr cidr h in cidr_converts addr mask e
  | inr plain ↦
      let (ip, e) = check_addr-plain bad addr plain h in plain_converts addr mask ip plain e fits
]

-- Every rule that `validate_rule` accepts is converted: `from_rule` finds nothing wrong with its
-- address, prefix or mask, whatever device Windows names for the drive of its path.
pub from_rule-validate_rule :
    (query : Text → Option Text) (rule : Rule)
    → validate_rule rule ≡ ok tt
    → (input : DriverRuleInput) × (from_rule query rule ≡ ok input)
unfolding from_rule
from_rule-validate_rule query rule h =
    let g = validate_rule-Guarantees rule h in
    let (w, e) =
      addr_converts invalid_ip_address rule.remote_addr rule.remote_addr_mask g.address g.mask in
    (driver_input query rule w, rw e)

-- ===== src/Rule/Cidr/Laws.antt =====
-- What a valid CIDR text gives: an address that fits its family, and a prefix no longer than it.
use ceasefire.Prelude.{
  ℕ, ◌≤◌, ◌≡◌, refl, List, [], ◌∷◌, Option, none, some, ok, ltb, Bool-cases, inl, inr, arith,
}
use ceasefire.Text.{Text, split}
use ceasefire.Text.Number.{parse_uint}
use ceasefire.Net.{IpAddr, InRange}
use ceasefire.Net.Parse.{parse_ip}
use ceasefire.Net.Parse.Range.{parse_ip-InRange}
use ceasefire.Rule.Cidr.{family_bits, checked_mask, cidr_of_parts, validate_cidr}

pub record Fits (n : IpAddr × ℕ) : Type 0 where
  pub range : InRange n.0
  pub bits : n.1 ≤ family_bits n.0

checked_mask-Fits :
    (ip : Option IpAddr) (mask : Option ℕ) {n : IpAddr × ℕ}
    → ((a : IpAddr) → ip ≡ some a → InRange a)
    → checked_mask ip mask ≡ ok n
    → Fits n
unfolding checked_mask
checked_mask-Fits none mask h e = cc
checked_mask-Fits (some ip) none h e = cc
checked_mask-Fits (some ip) (some m) {n} h e = elim (Bool-cases (ltb (family_bits ip) m)) [
  | inl long ↦ ground arith
  | inr fits ↦
      let r : InRange ip = h ip refl in
      let p : n ≡ (ip, m) = ground arith in
      let q : m ≤ family_bits ip = ground arith in rw p (record { range = r; bits = q })
]

-- A CIDR text that validates denotes a network of its family.
pub validate_cidr-Fits : (cidr : Text) {n : IpAddr × ℕ} → validate_cidr cidr ≡ ok n → Fits n
unfolding validate_cidr
validate_cidr-Fits cidr {n} e = go (split b'/' cidr) e
  where
    go : (parts : List Text) → cidr_of_parts parts ≡ ok n → Fits n
    go [] h = cc
    go (a ∷ []) h = cc
    go (a ∷ m ∷ []) h =
        checked_mask-Fits (parse_ip a) (parse_uint 255 m) (λ ip. parse_ip-InRange a) h
    go (a ∷ m ∷ x ∷ rest) h = cc

checked_mask-parts :
    (ip : Option IpAddr) (mask : Option ℕ) {n : IpAddr × ℕ}
    → checked_mask ip mask ≡ ok n
    → (ip ≡ some (n.0)) × (mask ≡ some (n.1)) × (n.1 ≤ family_bits (n.0))
unfolding checked_mask
checked_mask-parts none mask e = cc
checked_mask-parts (some ip) none e = cc
checked_mask-parts (some ip) (some m) {n} e = elim (Bool-cases (ltb (family_bits ip) m)) [
  | inl long ↦ ground arith
  | inr fits ↦
      let p : n ≡ (ip, m) = ground arith in
      let q : m ≤ family_bits ip = ground arith in rw p (refl, refl, q)
]

-- The two parts of a CIDR text that validates.
pub validate_cidr-parts :
    (cidr : Text) {n : IpAddr × ℕ}
    → validate_cidr cidr ≡ ok n
    → (a : Text) × (m : Text) × (split b'/' cidr ≡ a ∷ m ∷ [])
      × (parse_ip a ≡ some (n.0))
      × (parse_uint 255 m ≡ some (n.1))
      × (n.1 ≤ family_bits (n.0))
unfolding validate_cidr
validate_cidr-parts cidr {n} e = go (split b'/' cidr) refl e
  where
    go :
        (parts : List Text)
        → split b'/' cidr ≡ parts
        → cidr_of_parts parts ≡ ok n
        → (a : Text) × (m : Text) × (split b'/' cidr ≡ a ∷ m ∷ [])
          × (parse_ip a ≡ some (n.0))
          × (parse_uint 255 m ≡ some (n.1))
          × (n.1 ≤ family_bits (n.0))
    go [] q h = cc
    go (a ∷ []) q h = cc
    go (a ∷ m ∷ []) q h =
        let (x, y, z) = checked_mask-parts (parse_ip a) (parse_uint 255 m) h in (a, m, q, x, y, z)
    go (a ∷ m ∷ x ∷ rest) q h = cc

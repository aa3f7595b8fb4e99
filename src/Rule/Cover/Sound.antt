-- ===== src/Rule/Cover/Sound.antt =====
-- What the coverage test promises: a connection that the narrow rule matches, the broad one
-- matches too. It holds for every field of a rule but one case of the address fields.
use ceasefire.Prelude.{
  ℕ, ◌≤◌, ◌≡◌, refl, sym, Bool, true, false, Option, none, some, ltb, Bool-cases, inl, inr, arith,
  same, same→eq, option_eq, nat_eq, list_eq, is_some, Eq,
}
use ceasefire.Text.{Text}
use ceasefire.Text.Laws.{contains_suffix}
use ceasefire.Net.{IpAddr}
use ceasefire.Net.Parse.{parse_ip}
use ceasefire.Models.{
  Rule, ConnectionInfo, PortRange, Protocol, Direction, Direction-discrete, protocol_eq,
  network_zone_eq,
}
use ceasefire.Models.Ports.{matches}
use ceasefire.Rule.Network.{contains_ip, contains_ip_trans, same_network-contains_ip}
use ceasefire.Rule.Match.{
  address_matches, matches_rule, holds, protocol_matches, direction_matches, name_contains,
  network_zone_matches,
}
use ceasefire.Rule.Match.Address.{
  MaskFits, field_contains, field_parts, address_matches-field_contains, parse_field-Fits,
}
use ceasefire.Rule.Cidr.Laws.{Fits}
use ceasefire.Rule.Cover.{
  parse_field, covers_parsed, addr_field_covers, port_covers, covers_opt, direction_covers,
  protocol_covers, path_covers, matchset_covers,
}

covers_parsed-parts :
    (b n : IpAddr × ℕ)
    → Fits b
    → Fits n
    → covers_parsed (some b) (some n) ≡ true
    → (b.1 ≤ n.1) × (contains_ip b.0 b.1 n.0 ≡ true)
unfolding covers_parsed
covers_parsed-parts (bip, bm) (nip, nm) fb fn h = elim (Bool-cases (ltb nm bm)) [
  | inl long ↦ ground arith
  | inr le ↦
      let k = rw (le, same_network-contains_ip bip bm nip fb.range fn.range fb.bits) at h in
      (ground arith, k)
]

covers_parsed-some :
    (b n : Option (IpAddr × ℕ))
    → covers_parsed b n ≡ true
    → (x : IpAddr × ℕ) × (y : IpAddr × ℕ) × (b ≡ some x)
      × (n ≡ some y)
      × (covers_parsed (some x) (some y) ≡ true)
unfolding covers_parsed
covers_parsed-some none none h = cc
covers_parsed-some none (some y) h = cc
covers_parsed-some (some x) none h = cc
covers_parsed-some (some x) (some y) h = (x, y, refl, refl, h)

-- Where both rules name an address, both masks are within what the validator allows and the
-- coverage test of the two fields holds, every address that the narrow field admits the broad one
-- admits too.
pub addr_field_covers_sound :
    (b : Text) (bm : Option ℕ) (n : Text) (nm : Option ℕ) (conn : Text)
    → MaskFits b bm
    → MaskFits n nm
    → addr_field_covers (some b) bm (some n) nm ≡ true
    → address_matches n nm conn ≡ true
    → address_matches b bm conn ≡ true
addr_field_covers_sound b bm n nm conn fb fn covers matched =
    let c : covers_parsed (parse_field b bm) (parse_field n nm) ≡ true =
      unfold addr_field_covers in covers in
    let (x, y, ex, ey, k) = covers_parsed-some (parse_field b bm) (parse_field n nm) c in
    let (le, base) =
      covers_parsed-parts x y (parse_field-Fits b bm fb ex) (parse_field-Fits n nm fn ey) k in
    let m : field_contains (parse_field n nm) (parse_ip conn) ≡ true =
      rw (address_matches-field_contains n nm conn fn) at matched in
    let (y', ip, ey', ec, inside) = field_parts (parse_field n nm) (parse_ip conn) m in
    let same_field : y' ≡ y = cc in
    let within : contains_ip y.0 y.1 ip ≡ true = rw same_field at inside in
    rw (address_matches-field_contains b bm conn fb, ex, ec)
      (contains_ip_trans x.0 y.0 ip x.1 y.1 le base within)

-- If one port condition covers another, every port that the other admits is admitted by it.
pub port_covers_sound :
    (b n : Option PortRange) (port : ℕ)
    → port_covers b n ≡ true
    → holds n (λ r. matches r port) ≡ true
    → holds b (λ r. matches r port) ≡ true
unfolding port_covers matches holds
port_covers_sound b n port h k = ground arith

direction_covers_sound :
    (b n d : Direction)
    → direction_covers b n ≡ true
    → direction_matches n d ≡ true
    → direction_matches b d ≡ true
unfolding direction_covers direction_matches Direction-discrete
direction_covers_sound b n d h k = ground arith

protocol_covers_sound :
    (b n : Option Protocol) (p : Protocol)
    → protocol_covers b n ≡ true
    → protocol_matches n p ≡ true
    → protocol_matches b p ≡ true
unfolding protocol_covers protocol_matches
protocol_covers_sound none n p h k = refl
protocol_covers_sound (some b) n p h k = elim (Bool-cases (same b Protocol.any)) [
  | inl every ↦ rw every
  | inr other ↦ let q : n ≡ some b = sym (same→eq (some b) n (rw other at h)) in rw q at k
]

covers_opt_sound {ℓ} :
    {A : Type ℓ} ⦃e : Eq A⦄ (b n : Option A) (p : A → Bool)
    → covers_opt b n ≡ true
    → holds n p ≡ true
    → holds b p ≡ true
unfolding covers_opt
covers_opt_sound none n p h k = unfold holds in refl
covers_opt_sound (some b) n p h k = let q : n ≡ some b = same→eq n (some b) h in rw q at k

path_covers_sound :
    (lower : Text → Text) (b n : Option Text) (name : Option Text)
    → ((p : Text) → b ≡ some p → lower p ≡ p)
    → ((p : Text) → n ≡ some p → lower p ≡ p)
    → path_covers lower b n ≡ true
    → holds n (λ p. name_contains name p) ≡ true
    → holds b (λ p. name_contains name p) ≡ true
unfolding path_covers name_contains holds
path_covers_sound lower none n name lb ln h k = refl
path_covers_sound lower (some b) none name lb ln h k = cc
path_covers_sound lower (some b) (some n) none lb ln h k = k
path_covers_sound lower (some b) (some n) (some s) lb ln h k =
    contains_suffix b n s (rw (lb b refl, ln n refl) at h) k

-- Both address masks of a rule are within what the validator allows.
pub record MasksFit (r : Rule) : Type 0 where
  pub remote : (a : Text) → r.remote_addr ≡ some a → MaskFits a r.remote_addr_mask
  pub local : (a : Text) → r.local_addr ≡ some a → MaskFits a r.local_addr_mask

addr_covers_sound :
    (b : Option Text) (bm : Option ℕ) (n : Option Text) (nm : Option ℕ) (conn : Text)
    → ((a : Text) → b ≡ some a → MaskFits a bm)
    → ((a : Text) → n ≡ some a → MaskFits a nm)
    → (n ≡ none → b ≡ none)
    → addr_field_covers b bm n nm ≡ true
    → holds n (λ a. address_matches a nm conn) ≡ true
    → holds b (λ a. address_matches a bm conn) ≡ true
unfolding holds
addr_covers_sound none bm n nm conn fb fn named h k = refl
addr_covers_sound (some b) bm none nm conn fb fn named h k = cc (named refl)
addr_covers_sound (some b) bm (some n) nm conn fb fn named h k =
    addr_field_covers_sound b bm n nm conn (fb b refl) (fn n refl) h k

-- The paths of a rule are in lower case.
abbrev pub LowerPath : (Text → Text) → Rule → Type 0
LowerPath lower r = (p : Text) → r.process_path ≡ some p → lower p ≡ p

-- The conjuncts of the coverage test.
pub record Covers (lower : Text → Text) (b n : Rule) : Type 0 where
  pub direction : direction_covers b.direction n.direction ≡ true
  pub protocol : protocol_covers b.protocol n.protocol ≡ true
  pub path : path_covers lower b.process_path n.process_path ≡ true
  pub pid : covers_opt b.process_id n.process_id ≡ true
  pub zone : covers_opt b.network_zone n.network_zone ≡ true
  pub domain : same b.remote_domain n.remote_domain ≡ true
  pub remote :
      addr_field_covers b.remote_addr b.remote_addr_mask n.remote_addr n.remote_addr_mask ≡ true
  pub local : addr_field_covers b.local_addr b.local_addr_mask n.local_addr n.local_addr_mask ≡ true
  pub remote_port : port_covers b.remote_port n.remote_port ≡ true
  pub local_port : port_covers b.local_port n.local_port ≡ true

pub matchset_covers-parts :
    (lower : Text → Text) (b n : Rule) → matchset_covers lower b n ≡ true → Covers lower b n
unfolding matchset_covers
matchset_covers-parts lower b n h = ground arith

-- The conjuncts of the matching test.
pub record Conditions (r : Rule) (c : ConnectionInfo) : Type 0 where
  pub domain : is_some r.remote_domain ≡ false
  pub protocol : protocol_matches r.protocol c.protocol ≡ true
  pub direction : direction_matches r.direction c.direction ≡ true
  pub remote : holds r.remote_addr (λ a. address_matches a r.remote_addr_mask c.remote_addr) ≡ true
  pub local : holds r.local_addr (λ a. address_matches a r.local_addr_mask c.local_addr) ≡ true
  pub remote_port : holds r.remote_port (λ p. matches p c.remote_port) ≡ true
  pub local_port : holds r.local_port (λ p. matches p c.local_port) ≡ true
  pub path : holds r.process_path (λ p. name_contains c.process_name p) ≡ true
  pub pid : holds r.process_id (λ i. same c.process_id (some i)) ≡ true
  pub zone : holds r.network_zone (λ z. network_zone_matches z c.remote_addr) ≡ true

pub matches_rule-parts : (r : Rule) (c : ConnectionInfo) → matches_rule r c ≡ true → Conditions r c
unfolding matches_rule
matches_rule-parts r c h = ground arith

pub matches_rule-intro : (r : Rule) (c : ConnectionInfo) → Conditions r c → matches_rule r c ≡ true
unfolding matches_rule
matches_rule-intro r c m = rw (
  m.domain, m.protocol, m.direction, m.remote, m.local, m.remote_port, m.local_port, m.path, m.pid,
  m.zone,
)

module _ (lower : Text → Text) (broad narrow : Rule) (c : ConnectionInfo) where
  -- If the coverage test holds of two rules whose masks the validator accepts and whose paths are
  -- in lower case, and the narrow rule names an address wherever the broad one does, then every
  -- connection that the narrow rule matches is matched by the broad one.
  pub matchset_covers_sound :
      MasksFit broad
      → MasksFit narrow
      → LowerPath lower broad
      → LowerPath lower narrow
      → (narrow.remote_addr ≡ none → broad.remote_addr ≡ none)
      → (narrow.local_addr ≡ none → broad.local_addr ≡ none)
      → matchset_covers lower broad narrow ≡ true
      → matches_rule narrow c ≡ true
      → matches_rule broad c ≡ true
  matchset_covers_sound fb fn lb ln remote_named local_named h k =
      let v = matchset_covers-parts lower broad narrow h in
      let m = matches_rule-parts narrow c k in
      matches_rule-intro broad c (record {
        domain = rw (same→eq broad.remote_domain narrow.remote_domain v.domain) m.domain;
        protocol = protocol_covers_sound _ _ _ v.protocol m.protocol;
        direction = direction_covers_sound _ _ _ v.direction m.direction;
        remote = addr_covers_sound _ _ _ _ _ fb.remote fn.remote remote_named v.remote m.remote;
        local = addr_covers_sound _ _ _ _ _ fb.local fn.local local_named v.local m.local;
        remote_port = port_covers_sound _ _ _ v.remote_port m.remote_port;
        local_port = port_covers_sound _ _ _ v.local_port m.local_port;
        path = path_covers_sound lower _ _ _ lb ln v.path m.path;
        pid = covers_opt_sound _ _ _ v.pid m.pid;
        zone = covers_opt_sound _ _ _ v.zone m.zone;
      })

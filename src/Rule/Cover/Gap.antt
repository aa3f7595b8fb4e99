-- ===== src/Rule/Cover/Gap.antt =====
-- The case that the coverage test of service/src/rule/manager.rs gets the wrong way round: a rule
-- without a remote address matches every address, and `addr_field_covers` treats it as covered by
-- any rule, and as covering none that names an address.
use ceasefire.Prelude.{
  ℕ, ◌≡◌, refl, true, false, Option, none, some, arith, same_refl, same, option_eq, nat_eq, list_eq,
  Eq, [], Bool-cases, inl, inr,
}
use ceasefire.Text.{Text}
use ceasefire.Text.Laws.{ends_with_complete}
use ceasefire.Models.{
  Rule, ConnectionInfo, PortRange, Protocol, Direction, direction_eq, protocol_eq, network_zone_eq,
}
use ceasefire.Rule.Match.{address_matches, matches_rule, holds}
use ceasefire.Rule.Cover.Sound.{matches_rule-parts}
use ceasefire.Rule.Cover.{
  addr_field_covers, port_covers, covers_opt, direction_covers, protocol_covers, path_covers,
  matchset_covers,
}

direction_covers_refl : (d : Direction) → direction_covers d d ≡ true
unfolding direction_covers
direction_covers_refl d = rw (same_refl d) (ground arith)

protocol_covers_refl : (p : Option Protocol) → protocol_covers p p ≡ true
unfolding protocol_covers
protocol_covers_refl none = refl
protocol_covers_refl (some p) = elim (Bool-cases (same p Protocol.any)) [
  | inl e ↦ rw e
  | inr e ↦ rw (e, same_refl (some p))
]

path_covers_refl : (lower : Text → Text) (p : Option Text) → path_covers lower p p ≡ true
unfolding path_covers
path_covers_refl lower none = refl
path_covers_refl lower (some p) = ends_with_complete (lower p) []

covers_opt_refl {ℓ} : {A : Type ℓ} ⦃e : Eq A⦄ (o : Option A) → covers_opt o o ≡ true
unfolding covers_opt
covers_opt_refl none = refl
covers_opt_refl (some a) = same_refl (some a)

port_covers_refl : (p : Option PortRange) → port_covers p p ≡ true
unfolding port_covers
port_covers_refl p = ground arith

unnamed_covered :
    (b : Option Text) (bm : Option ℕ) (n : Option Text) (nm : Option ℕ)
    → n ≡ none
    → addr_field_covers b bm n nm ≡ true
unfolding addr_field_covers
unnamed_covered b bm n nm e = rw e

abbrev named : Text → Rule → Rule
named a r = record r { remote_addr = some a; remote_addr_mask = none }

named_covers :
    (lower : Text → Text) (r : Rule) (a : Text)
    → r.remote_addr ≡ none
    → r.local_addr ≡ none
    → matchset_covers lower (named a r) r ≡ true
unfolding matchset_covers
named_covers lower r a no_remote no_local = rw (
  direction_covers_refl r.direction,
  protocol_covers_refl r.protocol,
  path_covers_refl lower r.process_path,
  covers_opt_refl r.process_id,
  covers_opt_refl r.network_zone,
  covers_opt_refl r.app_group_id,
  same_refl r.remote_domain,
  unnamed_covered (some a) none r.remote_addr r.remote_addr_mask no_remote,
  unnamed_covered r.local_addr r.local_addr_mask r.local_addr r.local_addr_mask no_local,
  port_covers_refl r.remote_port,
  port_covers_refl r.local_port,
)

-- For every rule without addresses, every connection that it matches and every address that the
-- connection does not have: the rule narrowed to that address passes for one that covers the rule
-- itself, and it does not match the connection. So coverage does not imply that matches carry over.
pub matchset_covers_misses :
    (lower : Text → Text) (r : Rule) (c : ConnectionInfo) (a : Text)
    → r.remote_addr ≡ none
    → r.local_addr ≡ none
    → matches_rule r c ≡ true
    → address_matches a none c.remote_addr ≡ false
    → let narrowed = record r { remote_addr = some a; remote_addr_mask = none } in
      ¬ (
        matchset_covers lower narrowed r ≡ true
        → matches_rule r c ≡ true
        → matches_rule narrowed c ≡ true)
matchset_covers_misses lower r c a no_remote no_local matched other sound =
    let m = sound (named_covers lower r a no_remote no_local) matched in
    let k : holds (some a) (λ x. address_matches x none c.remote_addr) ≡ true =
      (matches_rule-parts (named a r) c m).remote in
    let k' : address_matches a none c.remote_addr ≡ true = unfold holds in k in cc

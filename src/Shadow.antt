-- ===== src/Shadow.antt =====
-- `ShadowStore` and the helpers of service/src/rule/domain_expander.rs: the ledger of the rules that
-- stand in the driver for one address of a domain rule. An `Instant` is a number of nanoseconds.
pub mod WellFormed
pub mod Ids
pub mod Engine
pub mod Expiry
pub mod Removal
use ceasefire.Prelude.{
  ℕ, ◌+◌, ◌*◌, ◌%◌, ◌^◌, ◌≡◌, refl, Bool, ◌++◌, List, [], ◌∷◌, map, Option, none, some, ltb, leb,
  ◌==◌, if◌then◌else◌, min, max, keep, find, unwrap_or, not, true, nat_eq, pair_eq,
}
use ceasefire.Prelude.Table.{Table, lookup, insert, remove}
use ceasefire.Text.{Text, codes}
use ceasefire.Net.{IpAddr, ip_eq}
use ceasefire.Models.{Rule}

abbrev pub shadow_ttl_cap : ℕ
shadow_ttl_cap = 600

abbrev pub shadow_rule_id_base : ℕ
shadow_rule_id_base = 0x8000_0000

-- `Duration::from_secs`
abbrev pub from_secs : ℕ → ℕ
from_secs s = s * 1_000_000_000

unfoldable pub shadow_lifetime : ℕ → ℕ
shadow_lifetime ttl = from_secs (min ttl shadow_ttl_cap)

-- The rule of the driver for one address; `ip_text` is the `Display` of an address.
unfoldable pub build_shadow_rule : (IpAddr → Text) → Rule → IpAddr → ℕ → Rule
build_shadow_rule ip_text source ip shadow_id = record {
  id = some shadow_id;
  name = codes "[域名] " ++ source.name;
  description =
      codes "域名规则 "
      ++ source.name
      ++ codes " 的影子条目（"
      ++ unwrap_or (codes "?") source.remote_domain
      ++ codes "）";
  enabled = true;
  priority = source.priority;
  action = source.action;
  direction = source.direction;
  protocol = source.protocol;
  process_id = source.process_id;
  process_path = source.process_path;
  remote_addr = some (ip_text ip);
  remote_addr_mask = none;
  remote_domain = none;
  remote_port = source.remote_port;
  local_addr = none;
  local_addr_mask = none;
  local_port = source.local_port;
  network_zone = source.network_zone;
  app_group_id = none;
  created_at = none;
  updated_at = none;
}

pub data HitOutcome : Type 0 where
  create : ℕ → HitOutcome
  refresh : HitOutcome

-- Keys are a rule's id and an address, values a shadow rule's id and the time it ends.
abbrev pub Entries : Type 0
Entries = Table (ℕ × IpAddr) (ℕ × ℕ)

pub record ShadowStore : Type 0 where
  pub next_index : ℕ
  pub entries : Entries

abbrev pub new : ShadowStore
new = record { next_index = 1; entries = [] }

-- The branches of `hit`.
hit_found : ShadowStore → ℕ × IpAddr → ℕ → Option (ℕ × ℕ) → HitOutcome × ShadowStore
hit_found s k expiry (some (shadow_id, old)) = (
  refresh,
  record {
    next_index = s.next_index;
    entries = insert k (shadow_id, (if ltb old expiry then expiry else old)) s.entries;
  },
)
hit_found s k expiry none =
    let shadow_id = (shadow_rule_id_base + s.next_index) % 2 ^ 32 in
    (
      create shadow_id,
      record {
        next_index = max ((s.next_index + 1) % 2 ^ 32) 1;
        entries = insert k (shadow_id, expiry) s.entries;
      },
    )

unfoldable pub hit : ShadowStore → ℕ → IpAddr → ℕ → ℕ → HitOutcome × ShadowStore
unfolding hit_found shadow_lifetime
hit s rule_id ip ttl now =
    hit_found s (rule_id, ip) (now + shadow_lifetime ttl) (lookup (rule_id, ip) s.entries)

-- The entries of one pass over the keys a test selects: the ids removed, and the store left.
take_out : ((ℕ × IpAddr) × (ℕ × ℕ) → Bool) → ShadowStore → List ℕ × ShadowStore
take_out p s = (
  map (λ e. e.1.0) (keep p s.entries),
  record { next_index = s.next_index; entries = keep (λ e. not (p e)) s.entries },
)

unfoldable pub reap : ShadowStore → ℕ → List ℕ × ShadowStore
unfolding take_out
reap s now = take_out (λ e. leb e.1.1 now) s

unfoldable pub revoke_rule : ShadowStore → ℕ → List ℕ × ShadowStore
unfolding take_out
revoke_rule s rule_id = take_out (λ e. e.0.0 == rule_id) s

unfoldable pub remove_entry : ShadowStore → ℕ → IpAddr → Option ℕ × ShadowStore
remove_entry s rule_id ip = (
  elim (lookup (rule_id, ip) s.entries) [ none ↦ none | some e ↦ some (e.0) ],
  record { next_index = s.next_index; entries = remove (rule_id, ip) s.entries },
)

unfoldable pub snapshot : ShadowStore → List (ℕ × IpAddr × ℕ)
snapshot s = map (λ e. (e.0.0, e.0.1, e.1.0)) s.entries

unfoldable pub all_shadow_ids : ShadowStore → List ℕ
all_shadow_ids s = map (λ e. e.1.0) s.entries

unfoldable pub source_of : ShadowStore → ℕ → Option ℕ
source_of s shadow_id = elim (find (λ e. e.1.0 == shadow_id) s.entries) [
  | none ↦ none
  | some e ↦ some (e.0.0)
]

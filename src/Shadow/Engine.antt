-- ===== src/Shadow/Engine.antt =====
-- `DomainRuleEngine` of service/src/rule/domain_expander.rs: the ledger of shadow rules and the
-- driver. The database, the driver and the clock are parameters that act on a world.
pub mod Ledger
use ceasefire.Prelude.{
  ℕ, Bool, true, false, not, ◌&&◌, ◌||◌, List, [], ◌∷◌, Option, none, some, Result, ok, err,
  if◌then◌else◌, is_some, unwrap_or, is_empty, find, same, nat_eq, option_eq,
}
use ceasefire.Text.{Text}
use ceasefire.Net.{IpAddr}
use ceasefire.Errors.{ServiceError}
use ceasefire.Models.{Rule}
use ceasefire.Dns.Cache.{DnsObservation}
use ceasefire.Rule.Domain.{validate_domain, domain_pattern_matches}
use ceasefire.Shadow.{
  ShadowStore, HitOutcome, create, refresh, hit, remove_entry, revoke_rule, reap, snapshot,
  build_shadow_rule,
}

-- `RuleDriverOps`, `Database::list_rules` and `Instant::now`.
pub record Ops (W : Type 0) : Type 0 where
  pub add_rule : Rule → W → Result ServiceError (Unit {0}) × W
  pub remove_rule : ℕ → W → Result ServiceError (Unit {0}) × W
  pub list_rules : W → Result ServiceError (List Rule) × W
  pub now : W → ℕ × W

is_err {ℓ κ} : {A : Type ℓ} {E : Type κ} → Result E A → Bool
is_err (ok a) = false
is_err (err e) = true

module _ {W : Type 0} (ops : Ops W) (lower : Text → Text) (ip_text : IpAddr → Text) where
  -- The id of a rule that an observation expands: enabled, with a well-formed pattern that matches.
  target : Rule → DnsObservation → Option ℕ
  unfolding is_err
  target rule obs =
      let pattern = unwrap_or [] rule.remote_domain in
      if not (rule.enabled && is_some rule.remote_domain)
      then none
      else if is_err (validate_domain pattern)
          || not (domain_pattern_matches lower pattern obs.domain)
      then none
      else rule.id

  -- The driver's answer to a rule just entered: on an error the entry is taken back.
  settle : ShadowStore → ℕ → IpAddr → Result ServiceError (Unit {0}) × W → ShadowStore × W
  settle s rule_id ip (ok u, w) = (s, w)
  settle s rule_id ip (err e, w) = ((remove_entry s rule_id ip).1, w)

  install : Rule → ℕ → IpAddr → HitOutcome × ShadowStore → W → ShadowStore × W
  install rule rule_id ip (refresh, s) w = (s, w)
  install rule rule_id ip (create shadow_id, s) w =
      settle s rule_id ip (ops.add_rule (build_shadow_rule ip_text rule ip shadow_id) w)

  expand_rule : Rule → DnsObservation → Option ℕ → ShadowStore × W → ShadowStore × W
  expand_rule rule obs none (s, w) = (s, w)
  expand_rule rule obs (some rule_id) (s, w) =
      let (time, w1) = ops.now w in
      install rule rule_id obs.ip (hit s rule_id obs.ip obs.ttl time) w1

  expand_rules : List Rule → DnsObservation → ShadowStore × W → ShadowStore × W
  expand_rules [] obs st = st
  expand_rules (rule ∷ rules) obs st =
      expand_rules rules obs (expand_rule rule obs (target rule obs) st)

  observed : DnsObservation → ShadowStore → Result ServiceError (List Rule) × W → ShadowStore × W
  observed obs s (err e, w) = (s, w)
  observed obs s (ok rules, w) = expand_rules rules obs (s, w)

  unfoldable pub on_dns_observation : DnsObservation → ShadowStore × W → ShadowStore × W
  unfolding target settle install expand_rule expand_rules observed
  on_dns_observation obs (s, w) = observed obs s (ops.list_rules w)

  -- Errors of the driver are only logged.
  remove_rules : List ℕ → W → W
  remove_rules [] w = w
  remove_rules (i ∷ is) w = remove_rules is ((ops.remove_rule i w).1)

  unfoldable pub reap_expired : ShadowStore × W → ShadowStore × W
  unfolding remove_rules
  reap_expired (s, w) =
      let (time, w1) = ops.now w in let (ids, left) = reap s time in (left, remove_rules ids w1)

  unfoldable pub revoke : ℕ → ShadowStore × W → ShadowStore × W
  unfolding remove_rules
  revoke rule_id (s, w) = let (ids, left) = revoke_rule s rule_id in (left, remove_rules ids w)

  -- The source rule of an entry, if it still expands names.
  live_source : Option Rule → Option Rule
  live_source none = none
  live_source (some r) = if r.enabled && is_some r.remote_domain then some r else none

  readd : Option Rule → ℕ → IpAddr → ℕ → ShadowStore × W → ShadowStore × W
  readd none rule_id ip shadow_id (s, w) = ((remove_entry s rule_id ip).1, w)
  readd (some rule) rule_id ip shadow_id (s, w) =
      settle s rule_id ip (ops.add_rule (build_shadow_rule ip_text rule ip shadow_id) w)

  resync_entries : List Rule → List (ℕ × IpAddr × ℕ) → ShadowStore × W → ShadowStore × W
  resync_entries rules [] st = st
  resync_entries rules ((rule_id, ip, shadow_id) ∷ entries) st =
      resync_entries rules entries
        (readd (live_source (find (λ r. same r.id (some rule_id)) rules)) rule_id ip shadow_id st)

  resynced : ShadowStore → Result ServiceError (List Rule) × W → ShadowStore × W
  resynced s (err e, w) = (s, w)
  resynced s (ok rules, w) = resync_entries rules (snapshot s) (s, w)

  unfoldable pub resync_after_reload : ShadowStore × W → ShadowStore × W
  unfolding settle live_source readd resync_entries resynced
  resync_after_reload (s, w) =
      if is_empty (snapshot s) then (s, w) else resynced s (ops.list_rules w)

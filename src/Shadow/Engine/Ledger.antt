-- ===== src/Shadow/Engine/Ledger.antt =====
-- The ledger against the driver: what it lists is installed.
use ceasefire.Prelude.{
  ℕ, ◌≡◌, refl, sym, ◌∙◌, List, [], ◌∷◌, Option, none, some, Result, ok, err, All, All-append,
  All-weaken, Bool-cases, inl, inr, same, same_refl, nat_eq, pair_eq,
}
use ceasefire.Prelude.Table.{lookup, insert, remove, found, next, some_not_none}
use ceasefire.Text.{Text}
use ceasefire.Net.{IpAddr, ip_eq}
use ceasefire.Errors.{ServiceError}
use ceasefire.Models.{Rule}
use ceasefire.Dns.Cache.{DnsObservation}
use ceasefire.Shadow.{
  Entries, ShadowStore, create, refresh, hit, hit_found, remove_entry, build_shadow_rule,
}
use ceasefire.Shadow.WellFormed.{ids, ids-insert_new, ids-insert_same}
use ceasefire.Shadow.Engine.{
  Ops, settle, install, expand_rule, expand_rules, observed, on_dns_observation,
}

-- What the ledger needs of the driver, with `Installed w i` for "the rule `i` is in the driver":
-- a rule that was added is installed, and no rule leaves by a rule being added, by the rules being
-- listed or by time passing.
pub record Reliable (W : Type 0) (ops : Ops W) (Installed : W → ℕ → Type 0) : Type 0 where
  pub add_ok :
      (rule : Rule) (w : W) (i : ℕ)
      → rule.id ≡ some i
      → (ops.add_rule rule w).0 ≡ ok tt
      → Installed ((ops.add_rule rule w).1) i
  pub add_keeps :
      (rule : Rule) (w : W) (i : ℕ) → Installed w i → Installed ((ops.add_rule rule w).1) i
  pub list_keeps : (w : W) (i : ℕ) → Installed w i → Installed ((ops.list_rules w).1) i
  pub now_keeps : (w : W) (i : ℕ) → Installed w i → Installed ((ops.now w).1) i

-- Every id of the ledger is in the driver.
abbrev pub Backed : {W : Type 0} → (W → ℕ → Type 0) → ShadowStore × W → Type 0
Backed Installed (s, w) = All (Installed w) (ids s.entries)

pub remove-insert_new :
    (k : ℕ × IpAddr) (v : ℕ × ℕ) (t : Entries) → lookup k t ≡ none → remove k (insert k v t) ≡ t
remove-insert_new k v [] h = rw (same_refl k)
remove-insert_new k v ((j, w) ∷ t) h = elim (Bool-cases (same k j)) [
  | inl g ↦ absurd (some_not_none (found k j w t g ∙ h))
  | inr g ↦ rw (g, g, remove-insert_new k v t (sym (next k j w t g) ∙ h))
]

module _ {W : Type 0} (ops : Ops W) (lower : Text → Text) (ip_text : IpAddr → Text)
    (Installed : W → ℕ → Type 0) (reliable : Reliable W ops Installed) where
  settle-Backed :
      (s : ShadowStore) (rule_id : ℕ) (ip : IpAddr) (r : Result ServiceError (Unit {0}) × W)
      → (r.0 ≡ ok tt → Backed Installed (s, r.1))
      → Backed Installed ((remove_entry s rule_id ip).1, r.1)
      → Backed Installed (settle ops lower ip_text s rule_id ip r)
  unfolding settle
  settle-Backed s rule_id ip (ok tt, w) h k = h refl
  settle-Backed s rule_id ip (err e, w) h k = k

  shadow_id_lem :
      (rule : Rule) (ip : IpAddr) (i : ℕ) → (build_shadow_rule ip_text rule ip i).id ≡ some i
  unfolding build_shadow_rule
  shadow_id_lem rule ip i = refl

  refresh-Backed :
      (rule : Rule) (rule_id : ℕ) (ip : IpAddr) (s : ShadowStore) (w : W)
      → Backed Installed (s, w)
      → Backed Installed (install ops lower ip_text rule rule_id ip (refresh, s) w)
  unfolding install
  refresh-Backed rule rule_id ip s w b = b

  new-Backed :
      (rule : Rule) (s : ShadowStore) (rule_id : ℕ) (ip : IpAddr) (i x n : ℕ) (w : W)
      → lookup (rule_id, ip) s.entries ≡ none
      → Backed Installed (s, w)
      → Backed Installed (
          install ops lower ip_text rule rule_id ip
            (create i, record { next_index = n; entries = insert (rule_id, ip) (i, x) s.entries })
            w)
  unfolding install remove_entry
  new-Backed rule s rule_id ip i x n w e b =
      let shadow = build_shadow_rule ip_text rule ip i in
      let kept : All (Installed ((ops.add_rule shadow w).1)) (ids s.entries) =
        All-weaken (ids s.entries) (λ j h. reliable.add_keeps shadow w j h) b in
      settle-Backed _ rule_id ip (ops.add_rule shadow w)
        (λ h. rw (ids-insert_new (rule_id, ip) (i, x) s.entries e) (
          All-append _ (ids s.entries) (i ∷ []) kept
            (reliable.add_ok shadow w i (shadow_id_lem rule ip i) h, tt)))
        (rw (remove-insert_new (rule_id, ip) (i, x) s.entries e) kept)

  found-Backed :
      (rule : Rule) (s : ShadowStore) (rule_id : ℕ) (ip : IpAddr) (expiry : ℕ) (w : W)
      (o : Option (ℕ × ℕ))
      → lookup (rule_id, ip) s.entries ≡ o
      → Backed Installed (s, w)
      → Backed Installed
          (install ops lower ip_text rule rule_id ip (hit_found s (rule_id, ip) expiry o) w)
  unfolding hit_found
  found-Backed rule s rule_id ip expiry w none e b = new-Backed rule s rule_id ip _ expiry _ w e b
  found-Backed rule s rule_id ip expiry w (some (i, old)) e b =
      refresh-Backed rule rule_id ip _ w (rw (ids-insert_same (rule_id, ip) i old _ s.entries e) b)

  hit-Backed :
      (rule : Rule) (s : ShadowStore) (rule_id : ℕ) (ip : IpAddr) (ttl time : ℕ) (w : W)
      → Backed Installed (s, w)
      → Backed Installed (install ops lower ip_text rule rule_id ip (hit s rule_id ip ttl time) w)
  unfolding hit
  hit-Backed rule s rule_id ip ttl time w b = found-Backed rule s rule_id ip _ w _ refl b

  expand_rule-Backed :
      (rule : Rule) (obs : DnsObservation) (o : Option ℕ) (st : ShadowStore × W)
      → Backed Installed st
      → Backed Installed (expand_rule ops lower ip_text rule obs o st)
  unfolding expand_rule
  expand_rule-Backed rule obs none (s, w) b = b
  expand_rule-Backed rule obs (some rule_id) (s, w) b =
      hit-Backed rule s rule_id obs.ip obs.ttl ((ops.now w).0) ((ops.now w).1)
        (All-weaken (ids s.entries) (λ i h. reliable.now_keeps w i h) b)

  expand_rules-Backed :
      (rules : List Rule) (obs : DnsObservation) (st : ShadowStore × W)
      → Backed Installed st
      → Backed Installed (expand_rules ops lower ip_text rules obs st)
  unfolding expand_rules
  expand_rules-Backed [] obs st b = b
  expand_rules-Backed (rule ∷ rules) obs st b =
      expand_rules-Backed rules obs _ (expand_rule-Backed rule obs _ st b)

  observed-Backed :
      (obs : DnsObservation) (s : ShadowStore) (r : Result ServiceError (List Rule) × W)
      → Backed Installed (s, r.1)
      → Backed Installed (observed ops lower ip_text obs s r)
  unfolding observed
  observed-Backed obs s (err e, w) b = b
  observed-Backed obs s (ok rules, w) b = expand_rules-Backed rules obs (s, w) b

  -- With a reliable driver, a DNS observation keeps the ledger backed: if every shadow rule it
  -- lists is in the driver before, so it is afterwards, whatever the rules that match, and also
  -- where the driver refuses one of the new shadow rules.
  pub on_dns_observation-Backed :
      (obs : DnsObservation) (s : ShadowStore) (w : W)
      → Backed Installed (s, w)
      → Backed Installed (on_dns_observation ops lower ip_text obs (s, w))
  unfolding on_dns_observation
  on_dns_observation-Backed obs s w b =
      observed-Backed obs s (ops.list_rules w)
        (All-weaken (ids s.entries) (λ i h. reliable.list_keeps w i h) b)

-- ===== src/Shadow/Removal.antt =====
-- What takes entries out of the ledger of service/src/rule/domain_expander.rs: the sweep, a rule's
-- revocation and the removal of one entry.
use ceasefire.Prelude.{
  ℕ, ◌≡◌, Option, none, some, leb, ◌==◌, if◌then◌else◌, same, same→eq, differ, nat_eq, pair_eq,
  Bool-cases, Option-cases, inl, inr,
}
use ceasefire.Prelude.Table.{lookup, lookup-keep_absent, lookup-remove, lookup-remove_other}
use ceasefire.Net.{IpAddr, ip_eq}
use ceasefire.Shadow.{ShadowStore, take_out, reap, revoke_rule, remove_entry}
use ceasefire.Shadow.WellFormed.{WellFormed}
use ceasefire.Shadow.Ids.{removals-WellFormed}
use ceasefire.Shadow.Expiry.{lookup-reap, lookup-revoke_rule}

-- An entry whose time is not over, as its id and the end of its time.
abbrev pub unexpired : ℕ → Option (ℕ × ℕ) → Option (ℕ × ℕ)
unexpired now none = none
unexpired now (some (i, expiry)) = if leb expiry now then none else some (i, expiry)

lookup-reap_all :
    (s : ShadowStore) (now : ℕ) (k : ℕ × IpAddr)
    → WellFormed s
    → lookup k (((reap s now).1).entries) ≡ unexpired now (lookup k s.entries)
unfolding reap take_out
lookup-reap_all s now k w = elim (Option-cases (lookup k s.entries)) [
  | inl h ↦ rw h (lookup-keep_absent _ k s.entries h)
  | inr ((i, expiry), h) ↦ rw h (lookup-reap s now k i expiry w.unique h)
]

lookup-revoke_rule_all :
    (s : ShadowStore) (rule_id : ℕ) (k : ℕ × IpAddr)
    → WellFormed s
    → lookup k (((revoke_rule s rule_id).1).entries)
      ≡ (if k.0 == rule_id then none else lookup k s.entries)
unfolding revoke_rule take_out
lookup-revoke_rule_all s rule_id k w = elim (Option-cases (lookup k s.entries)) [
  | inl h ↦ elim (Bool-cases (k.0 == rule_id)) [
    | inl g ↦ rw g (lookup-keep_absent _ k s.entries h)
    | inr g ↦ rw (g, h) (lookup-keep_absent _ k s.entries h)
  ]
  | inr (v, h) ↦ rw h (lookup-revoke_rule s rule_id k v w.unique h)
]

lookup-remove_entry :
    (s : ShadowStore) (rule_id : ℕ) (ip : IpAddr) (k : ℕ × IpAddr)
    → lookup k (((remove_entry s rule_id ip).1).entries)
      ≡ (if same k (rule_id, ip) then none else lookup k s.entries)
unfolding remove_entry take_out
lookup-remove_entry s rule_id ip k = elim (Bool-cases (same k (rule_id, ip))) [
  | inl g ↦ rw (g, same→eq k (rule_id, ip) g) (lookup-remove (rule_id, ip) s.entries)
  | inr g ↦ rw g (lookup-remove_other (rule_id, ip) k s.entries (differ k (rule_id, ip) g))
]

-- In a well-formed ledger the sweep removes exactly the entries whose time is over, a rule's
-- revocation exactly those of the rule, and the removal of an entry that one alone; every other entry
-- is found as before, and the ledger stays well formed.
pub removals_exact :
    (s : ShadowStore) (k : ℕ × IpAddr) (now rule_id : ℕ) (ip : IpAddr)
    → WellFormed s
    → ((lookup k (((reap s now).1).entries) ≡ unexpired now (lookup k s.entries))
        × WellFormed ((reap s now).1))
      × ((lookup k (((revoke_rule s rule_id).1).entries)
            ≡ (if k.0 == rule_id then none else lookup k s.entries))
          × WellFormed ((revoke_rule s rule_id).1))
      × ((lookup k (((remove_entry s rule_id ip).1).entries)
            ≡ (if same k (rule_id, ip) then none else lookup k s.entries))
          × WellFormed ((remove_entry s rule_id ip).1))
removals_exact s k now rule_id ip w =
    let (swept, revoked, removed) = removals-WellFormed s w in
    (
      (lookup-reap_all s now k w, swept now),
      (lookup-revoke_rule_all s rule_id k w, revoked rule_id),
      (lookup-remove_entry s rule_id ip k, removed rule_id ip),
    )

-- ===== src/Shadow/Ids.antt =====
-- The operations of `ShadowStore` keep its invariant, and the ids they give out are new.
use ceasefire.Prelude.{
  ℕ, ◌+◌, ◌%◌, ◌^◌, ◌<◌, ◌≡◌, ◌≢◌, refl, sym, ◌∙◌, Bool, true, false, [], ◌∷◌, Option, none, some,
  ◌==◌, if◌then◌else◌, max, keep, All, All-append, All-weaken, find, Bool-cases, inl, inr, arith,
  same, nat_eq, pair_eq, ltb,
}
use ceasefire.Prelude.Table.{lookup, insert, insert-Unique, keep-Unique, found, next, some_not_none}
use ceasefire.Net.{IpAddr, ip_eq}
use ceasefire.Shadow.{
  Entries, ShadowStore, create, shadow_rule_id_base, hit, hit_found, take_out, reap, revoke_rule,
  remove_entry, source_of, shadow_lifetime,
}
use ceasefire.Shadow.WellFormed.{
  ids, Issued, WellFormed, Distinct-append, ids-insert_new, ids-insert_same, All-ids-keep,
  Distinct-ids-keep, remove-keep,
}

new_id_lem :
    (n : ℕ)
    → n + 1 < 2 ^ 31
    → ((shadow_rule_id_base + n) % 2 ^ 32 ≡ shadow_rule_id_base + n)
      × (max ((n + 1) % 2 ^ 32) 1 ≡ n + 1)
new_id_lem n h = (omega arith, omega arith)

hit_found-WellFormed :
    (s : ShadowStore) (k : ℕ × IpAddr) (expiry : ℕ) (o : Option (ℕ × ℕ))
    → lookup k s.entries ≡ o
    → WellFormed s
    → s.next_index + 1 < 2 ^ 31
    → WellFormed ((hit_found s k expiry o).1)
unfolding hit_found
hit_found-WellFormed s k expiry (some (i, old)) e w h =
    let same_ids = ids-insert_same k i old (if ltb old expiry then expiry else old) s.entries e in
    record {
      unique = insert-Unique k _ s.entries w.unique;
      issued = rw same_ids w.issued;
      distinct = rw same_ids w.distinct;
      positive = w.positive;
    }
hit_found-WellFormed s k expiry none e w h =
    let (id_eq, next_eq) = new_id_lem s.next_index h in
    let new_ids = ids-insert_new k (shadow_rule_id_base + s.next_index, expiry) s.entries e in
    let positive : 0 < s.next_index = w.positive in
    let fresh : All (λ j. j ≢ shadow_rule_id_base + s.next_index) (ids s.entries) =
      All-weaken (ids s.entries) (λ a p q. absurd (omega arith)) w.issued in
    let issued : All (Issued (s.next_index + 1)) (ids s.entries) =
      All-weaken (ids s.entries) (λ a p. (p.0, omega arith)) w.issued in
    record {
      unique = insert-Unique k _ s.entries w.unique;
      issued =
          rw (id_eq, next_eq, new_ids)
            (All-append _ (ids s.entries) _ issued ((omega arith, omega arith), tt));
      distinct = rw (id_eq, new_ids) (Distinct-append (ids s.entries) _ w.distinct fresh);
      positive = rw next_eq (omega arith);
    }

-- Before 2^31 - 2 ids were given out, a hit keeps the ledger well formed: each rule and address
-- stands once, and the ids of the shadow rules differ from each other and lie above the base.
pub hit-WellFormed :
    (s : ShadowStore) (rule_id : ℕ) (ip : IpAddr) (ttl now : ℕ)
    → WellFormed s
    → s.next_index + 1 < 2 ^ 31
    → WellFormed ((hit s rule_id ip ttl now).1)
unfolding hit
hit-WellFormed s rule_id ip ttl now w h = hit_found-WellFormed s (rule_id, ip) _ _ refl w h

keep-WellFormed :
    (s : ShadowStore) (p : (ℕ × IpAddr) × (ℕ × ℕ) → Bool)
    → WellFormed s
    → WellFormed (record { next_index = s.next_index; entries = keep p s.entries })
keep-WellFormed s p w = record {
  unique = keep-Unique p s.entries w.unique;
  issued = All-ids-keep _ p s.entries w.issued;
  distinct = Distinct-ids-keep p s.entries w.distinct;
  positive = w.positive;
}

-- The sweep, a rule's revocation and the removal of an entry keep the ledger well formed.
pub removals-WellFormed :
    (s : ShadowStore)
    → WellFormed s
    → ((now : ℕ) → WellFormed ((reap s now).1))
      × ((rule_id : ℕ) → WellFormed ((revoke_rule s rule_id).1))
      × ((rule_id : ℕ) (ip : IpAddr) → WellFormed ((remove_entry s rule_id ip).1))
unfolding reap revoke_rule remove_entry take_out
removals-WellFormed s w = (
  λ now. keep-WellFormed s _ w,
  λ rule_id. keep-WellFormed s _ w,
  λ rule_id ip. rw (remove-keep (rule_id, ip) s.entries) (keep-WellFormed s _ w),
)

find-insert_new :
    (k : ℕ × IpAddr) (i x : ℕ) (t : Entries)
    → lookup k t ≡ none
    → All (λ j. j ≢ i) (ids t)
    → find (λ e. e.1.0 == i) (insert k (i, x) t) ≡ some (k, (i, x))
find-insert_new k i x [] h fresh = let r : (i == i) ≡ true = ground arith in rw r
find-insert_new k i x ((j, (a, b)) ∷ t) h (n, fresh) = elim (Bool-cases (same k j)) [
  | inl g ↦ absurd (some_not_none (found k j (a, b) t g ∙ h))
  | inr g ↦
      let r : (a == i) ≡ false = ground arith in
      rw (g, r) (find-insert_new k i x t (sym (next k j (a, b) t g) ∙ h) fresh)
]

source_of_found :
    (s : ShadowStore) (i : ℕ) (e : (ℕ × IpAddr) × (ℕ × ℕ))
    → find (λ x. x.1.0 == i) s.entries ≡ some e
    → source_of s i ≡ some (e.0.0)
unfolding source_of
source_of_found s i e h = rw (source_of, h)

-- On a well-formed ledger, the id that a first hit of a rule and an address hands to the driver
-- leads back to that rule.
pub source_of-hit :
    (s : ShadowStore) (rule_id : ℕ) (ip : IpAddr) (ttl now : ℕ)
    → WellFormed s
    → s.next_index + 1 < 2 ^ 31
    → lookup (rule_id, ip) s.entries ≡ none
    → (i : ℕ) × ((hit s rule_id ip ttl now).0 ≡ create i)
      × (source_of ((hit s rule_id ip ttl now).1) i ≡ some rule_id)
unfolding hit hit_found
source_of-hit s rule_id ip ttl now w h e =
    let (id_eq, next_eq) = new_id_lem s.next_index h in
    let fresh : All (λ j. j ≢ shadow_rule_id_base + s.next_index) (ids s.entries) =
      All-weaken (ids s.entries) (λ a p q. absurd (omega arith)) w.issued in
    (
      shadow_rule_id_base + s.next_index,
      rw (e, id_eq),
      rw (e, id_eq)
          (source_of_found _ _ _
            (find-insert_new (rule_id, ip) _ (now + shadow_lifetime ttl) s.entries e fresh)),
    )

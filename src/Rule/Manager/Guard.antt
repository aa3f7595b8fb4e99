-- ===== src/Rule/Manager/Guard.antt =====
-- The guards of service/src/rule/manager.rs, `update_rule` and `delete_rule`: the rules of the system.
use ceasefire.Prelude.{
  list_eq, nat_eq, option_eq, ℕ, ◌≡◌, ◌≢◌, sym, true, false, same, same_refl, same→eq, and_parts,
  Option, some, ok, err, Bool-cases, inl, inr,
}
use ceasefire.Text.{Text}
use ceasefire.Errors.{validation, other}
use ceasefire.Models.{
  Rule, rule_action_eq, direction_eq, protocol_eq, port_range_eq, network_zone_eq,
}
use ceasefire.Rule.Manager.{
  Backend, is_system, unchanged, find_rule, guard_update, update_rule, guard_delete, delete_rule,
  update_rule_internal,
}
use ceasefire.Rule.Manager.Promises.{Promises, Keeps}

-- `old` with the number, the state, the description and the times of another rule.
abbrev pub restated : Rule → Rule → Rule
restated old rule = record old {
  id = rule.id;
  enabled = rule.enabled;
  description = rule.description;
  created_at = rule.created_at;
  updated_at = rule.updated_at;
}

unchanged-restated : (old rule : Rule) → unchanged (restated old rule) old ≡ true
unfolding unchanged
unchanged-restated old rule = simp same_refl

unchanged_fields : (old rule : Rule) → unchanged rule old ≡ true → rule ≡ restated old rule
unfolding unchanged
unchanged_fields old rule h =
    let (k15, h15) = and_parts _ (same rule.priority old.priority) h in
    let same_priority : old.priority ≡ rule.priority =
      sym (same→eq rule.priority old.priority h15) in
    let (k14, h14) = and_parts _ (same rule.action old.action) k15 in
    let same_action : old.action ≡ rule.action = sym (same→eq rule.action old.action h14) in
    let (k13, h13) = and_parts _ (same rule.app_group_id old.app_group_id) k14 in
    let same_app_group_id : old.app_group_id ≡ rule.app_group_id =
      sym (same→eq rule.app_group_id old.app_group_id h13) in
    let (k12, h12) = and_parts _ (same rule.network_zone old.network_zone) k13 in
    let same_network_zone : old.network_zone ≡ rule.network_zone =
      sym (same→eq rule.network_zone old.network_zone h12) in
    let (k11, h11) = and_parts _ (same rule.local_port old.local_port) k12 in
    let same_local_port : old.local_port ≡ rule.local_port =
      sym (same→eq rule.local_port old.local_port h11) in
    let (k10, h10) = and_parts _ (same rule.local_addr_mask old.local_addr_mask) k11 in
    let same_local_addr_mask : old.local_addr_mask ≡ rule.local_addr_mask =
      sym (same→eq rule.local_addr_mask old.local_addr_mask h10) in
    let (k9, h9) = and_parts _ (same rule.local_addr old.local_addr) k10 in
    let same_local_addr : old.local_addr ≡ rule.local_addr =
      sym (same→eq rule.local_addr old.local_addr h9) in
    let (k8, h8) = and_parts _ (same rule.remote_port old.remote_port) k9 in
    let same_remote_port : old.remote_port ≡ rule.remote_port =
      sym (same→eq rule.remote_port old.remote_port h8) in
    let (k7, h7) = and_parts _ (same rule.remote_domain old.remote_domain) k8 in
    let same_remote_domain : old.remote_domain ≡ rule.remote_domain =
      sym (same→eq rule.remote_domain old.remote_domain h7) in
    let (k6, h6) = and_parts _ (same rule.remote_addr_mask old.remote_addr_mask) k7 in
    let same_remote_addr_mask : old.remote_addr_mask ≡ rule.remote_addr_mask =
      sym (same→eq rule.remote_addr_mask old.remote_addr_mask h6) in
    let (k5, h5) = and_parts _ (same rule.remote_addr old.remote_addr) k6 in
    let same_remote_addr : old.remote_addr ≡ rule.remote_addr =
      sym (same→eq rule.remote_addr old.remote_addr h5) in
    let (k4, h4) = and_parts _ (same rule.process_path old.process_path) k5 in
    let same_process_path : old.process_path ≡ rule.process_path =
      sym (same→eq rule.process_path old.process_path h4) in
    let (k3, h3) = and_parts _ (same rule.process_id old.process_id) k4 in
    let same_process_id : old.process_id ≡ rule.process_id =
      sym (same→eq rule.process_id old.process_id h3) in
    let (k2, h2) = and_parts _ (same rule.protocol old.protocol) k3 in
    let same_protocol : old.protocol ≡ rule.protocol =
      sym (same→eq rule.protocol old.protocol h2) in
    let (k1, h1) = and_parts _ (same rule.direction old.direction) k2 in
    let same_direction : old.direction ≡ rule.direction =
      sym (same→eq rule.direction old.direction h1) in
    let same_name : old.name ≡ rule.name = sym (same→eq rule.name old.name k1) in
    rw (
      same_name, same_direction, same_protocol, same_process_id, same_process_path,
      same_remote_addr, same_remote_addr_mask, same_remote_domain, same_remote_port,
      same_local_addr, same_local_addr_mask, same_local_port, same_network_zone, same_app_group_id,
      same_action, same_priority,
    )

module _ {W : Type 0} (row live : W → ℕ → Option Rule) (b : Backend W) (lower : Text → Text)
    (p : Promises row live b) where
  -- A rule of the system is not deleted, nor updated to a rule that differs from it in another field
  -- than the number, the state, the description and the times: both calls fail with a validation
  -- error, and leave every row and every rule of the driver as they were. An update in those fields
  -- alone goes on as the update of any rule.
  pub system_rule_protected :
      (id i : ℕ) (old rule like : Rule) (w : W)
      → (b.get_row id w).0 ≡ ok (some old)
      → is_system old ≡ true
      → rule ≢ restated old rule
      → ((delete_rule b lower id w).0 ≡ err (validation other))
        × Keeps row live i w ((delete_rule b lower id w).1)
        × ((update_rule b lower id rule w).0 ≡ err (validation other))
        × Keeps row live i w ((update_rule b lower id rule w).1)
        × (update_rule b lower id (restated old like) w
            ≡ update_rule_internal b lower id (restated old like) ((b.get_row id w).1))
  unfolding delete_rule guard_delete update_rule find_rule guard_update
  system_rule_protected id i old rule like w h sys differs =
      let kept = p.get_row_keeps id i w in
      let no : unchanged rule old ≡ false = elim (Bool-cases (unchanged rule old)) [
        | inl same_fields ↦ absurd (differs (unchanged_fields old rule same_fields))
        | inr other_field ↦ other_field
      ] in
      (
        rw (h, sys),
        rw (h, sys) kept,
        rw (h, sys, no),
        rw (h, sys, no) kept,
        rw (h, sys, unchanged-restated old like),
      )

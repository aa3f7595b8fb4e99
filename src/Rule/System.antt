-- ===== src/Rule/System.antt =====
-- service/src/rule/system_rules.rs: the rules that Windows itself needs, their installation and their
-- removal. `is_file` is the file system's.
pub mod Installed
use ceasefire.Prelude.{
  ℕ, ◌+◌, ◌&&◌, Bool, true, false, List, [], ◌∷◌, ◌++◌, Option, none, some, Result, ok, err,
  if◌then◌else◌, same, list_eq, nat_eq, option_eq, unwrap_or, find,
}
use ceasefire.Prelude.State.{Action, Done, pure, ◌>>=◌}
use ceasefire.Text.{Text, codes}
use ceasefire.Errors.{ServiceError}
use ceasefire.Models.{Rule, RuleAction, Direction, both, outbound, Protocol, udp, PortRange, single}
use ceasefire.Rule.Manager.{
  Backend, system_rule_prefix, is_system, create_rule, update_rule_internal, delete_rule_internal,
}

pub record RuleMatch : Type 0 where
  pub direction : Direction
  pub protocol : Option Protocol
  pub process_id : Option ℕ
  pub process_path : Option Text
  pub remote_port : Option PortRange
  pub local_port : Option PortRange

pub record ProcessDef : Type 0 where
  pub name : Text
  pub description : Text
  pub priority : ℕ
  pub direction : Direction
  pub wow64 : Bool

unfoldable pub system_rule : Text → Text → ℕ → RuleMatch → Rule
system_rule name description priority m = record {
  id = none;
  name = system_rule_prefix ++ name;
  description = description;
  enabled = true;
  priority = priority;
  action = RuleAction.allow;
  direction = m.direction;
  protocol = m.protocol;
  process_id = m.process_id;
  process_path = m.process_path;
  remote_addr = none;
  remote_addr_mask = none;
  remote_domain = none;
  remote_port = m.remote_port;
  local_addr = none;
  local_addr_mask = none;
  local_port = m.local_port;
  network_zone = none;
  app_group_id = none;
  created_at = none;
  updated_at = none;
}

path_only : Direction → Text → RuleMatch
path_only direction path = record {
  direction = direction;
  protocol = none;
  process_id = none;
  process_path = some path;
  remote_port = none;
  local_port = none;
}

abbrev process : Text → Text → ℕ → Direction → Bool → ProcessDef
process name description priority direction wow64 = record {
  name = name;
  description = description;
  priority = priority;
  direction = direction;
  wow64 = wow64;
}

abbrev process_defs : List ProcessDef
process_defs =
    process (codes "svchost.exe") (codes "Windows 服务宿主（NCSI/DNS/WU 等）") 2 outbound true
    ∷ process (codes "lsass.exe") (codes "本地安全机构子系统") 3 both false
    ∷ process (codes "services.exe") (codes "服务控制管理器") 4 both false
    ∷ process (codes "dllhost.exe") (codes "COM Surrogate") 5 outbound true
    ∷ process (codes "wuauclt.exe") (codes "Windows Update 客户端") 6 outbound true
    ∷ process (codes "backgroundTaskHost.exe") (codes "UWP 后台任务宿主") 7 outbound true
    ∷ []

-- The rule of a process in one of the two directories.
variant : ProcessDef → Text → Text → Rule
unfolding system_rule path_only
variant p suffix full_path =
    system_rule (p.name ++ suffix) (p.description ++ codes "。实际路径: " ++ full_path) p.priority
      (path_only p.direction full_path)

module _ (is_file : Text → Bool) where
  process_rules : Text → List ProcessDef → List Rule
  unfolding variant
  process_rules root [] = []
  process_rules root (p ∷ ps) =
      let rest = process_rules root ps in
      let wow_path = root ++ codes "\\SysWOW64\\" ++ p.name in
      variant p [] (root ++ codes "\\System32\\" ++ p.name)
      ∷ (if p.wow64 && is_file wow_path
          then variant p (codes " (SysWOW64)") wow_path ∷ rest
          else rest)

  unfoldable pub definitions_with_root : Text → List Rule
  unfolding process_rules system_rule
  definitions_with_root root =
      system_rule (codes "System") (codes "内核系统进程（PID 4）") 1 (record {
        direction = both;
        protocol = none;
        process_id = some 4;
        process_path = none;
        remote_port = none;
        local_port = none;
      })
        ∷ process_rules root process_defs
      ++ (system_rule (codes "DNS") (codes "DNS 查询（UDP 53，任意进程）") 8 (record {
        direction = both;
        protocol = some udp;
        process_id = none;
        process_path = none;
        remote_port = some (single 53);
        local_port = none;
      })
          ∷ system_rule (codes "DHCP") (codes "DHCP 客户端（UDP 68）") 9 (record {
            direction = both;
            protocol = some udp;
            process_id = none;
            process_path = none;
            remote_port = none;
            local_port = some (single 68);
          })
          ∷ [])

module _ {W : Type 0} (b : Backend W) (lower : Text → Text) where
  -- An error is only logged.
  count_ok : {A : Type 0} → Result ServiceError A → ℕ → ℕ
  count_ok (ok a) n = n + 1
  count_ok (err e) n = n

  migrated : Rule → Rule → Rule
  migrated def old = record def {
    id = old.id;
    enabled = old.enabled;
    priority = old.priority;
    created_at = old.created_at;
  }

  -- The rules created so far, and the world.
  install : Rule → Option Rule → ℕ × W → ℕ × W
  unfolding count_ok migrated
  install def none (added, w) = let r = create_rule b lower def w in (count_ok (r.0) added, r.1)
  install def (some old) (added, w) =
      if same old.process_path def.process_path
      then (added, w)
      else (added, (update_rule_internal b lower (unwrap_or 0 old.id) (migrated def old) w).1)

  unfoldable pub install_all : List Rule → List Rule → ℕ × W → ℕ × W
  unfolding install
  install_all existing [] s = s
  install_all existing (def ∷ defs) s =
      install_all existing defs (install def (find (λ r. same r.name def.name) existing) s)

  install_missing : List Rule → List Rule → Action W ℕ
  install_missing existing defs w = let r = install_all existing defs (0, w) in (ok (r.0), r.1)

  unfoldable pub ensure_installed_with_root : (Text → Bool) → Text → Action W ℕ
  unfolding install_missing
  ensure_installed_with_root is_file root = do
    existing ← b.list_rows
    install_missing existing (definitions_with_root is_file root)

  remove_rules : List Rule → ℕ × W → ℕ × W
  unfolding count_ok
  remove_rules [] s = s
  remove_rules (r ∷ rs) (removed, w) = remove_rules rs (
      if is_system r
      then (elim r.id [
        | none ↦ (removed, w)
        | some id ↦ let d = delete_rule_internal b lower id w in (count_ok (d.0) removed, d.1)
      ])
      else (removed, w))

  remove_listed : List Rule → Action W ℕ
  unfolding remove_rules
  remove_listed rs w = let r = remove_rules rs (0, w) in (ok (r.0), r.1)

  unfoldable pub remove_all : Action W ℕ
  unfolding remove_listed
  remove_all = do existing ← b.list_rows; remove_listed existing

-- ===== src/Rule/System/Installed.antt =====
-- The installation of the system's rules: what it installs is protected, and it is done once.
use ceasefire.Prelude.{
  ℕ, ◌≡◌, refl, ◌&&◌, Bool, true, List, [], ◌∷◌, ◌++◌, none, some, ok, same, list_eq, nat_eq,
  option_eq, find, All, All-append, Bool-cases, inl, inr,
}
use ceasefire.Text.{Text, codes, starts_with, strip_prefix}
use ceasefire.Models.{Rule}
use ceasefire.Rule.Manager.{Backend, is_system}
use ceasefire.Rule.System.{
  ProcessDef, RuleMatch, system_rule, variant, process_rules, process_defs, definitions_with_root,
  install, install_all, install_missing, ensure_installed_with_root,
}

-- A rule of the system, on, and of no group and no domain.
abbrev pub Exempt : Rule → Type 0
Exempt r =
    (is_system r ≡ true) × (r.enabled ≡ true) × (r.app_group_id ≡ none) × (r.remote_domain ≡ none)

system_rule-Exempt :
    (name description : Text) (priority : ℕ) (m : RuleMatch)
    → Exempt (system_rule name description priority m)
unfolding system_rule is_system starts_with strip_prefix
system_rule-Exempt name description priority m = (refl, refl, refl, refl)

process_rules-Exempt :
    (is_file : Text → Bool) (root : Text) (ps : List ProcessDef)
    → All Exempt (process_rules is_file root ps)
unfolding process_rules variant
process_rules-Exempt is_file root [] = tt
process_rules-Exempt is_file root (p ∷ ps) =
    let rest = process_rules-Exempt is_file root ps in
    elim (Bool-cases (p.wow64 && is_file (root ++ codes "\\SysWOW64\\" ++ p.name))) [
      | inl h ↦ rw h (system_rule-Exempt _ _ _ _, (system_rule-Exempt _ _ _ _, rest))
      | inr h ↦ rw h (system_rule-Exempt _ _ _ _, rest)
    ]

-- Every rule of the definitions bears the prefix that protects it, is on, and stands for no group
-- and no domain, whatever the system's directory is and whichever files are in it.
pub definitions_with_root-Exempt :
    (is_file : Text → Bool) (root : Text) → All Exempt (definitions_with_root is_file root)
unfolding definitions_with_root
definitions_with_root-Exempt is_file root = (
  system_rule-Exempt _ _ _ _,
  All-append Exempt (process_rules is_file root process_defs) _
      (process_rules-Exempt is_file root process_defs)
      (system_rule-Exempt _ _ _ _, (system_rule-Exempt _ _ _ _, tt)),
)

-- A rule of the name is there, with the path.
abbrev pub Present : List Rule → Rule → Type 0
Present existing def =
    (old : Rule) × (find (λ r. same r.name def.name) existing ≡ some old)
    × (same old.process_path def.process_path ≡ true)

module _ {W : Type 0} (b : Backend W) (lower : Text → Text) where
  nothing_missing :
      (existing defs : List Rule) (s : ℕ × W)
      → All (Present existing) defs
      → install_all b lower existing defs s ≡ s
  unfolding install_all install
  nothing_missing existing [] s h = refl
  nothing_missing existing (def ∷ defs) (added, w) ((old, here, path), h) =
      rw (install_all, here, path) (nothing_missing existing defs (added, w) h)

  -- Where each definition is in the database under its name and with its path, an installation adds
  -- nothing and calls nothing but the list of the rules.
  pub ensure_installed_again :
      (is_file : Text → Bool) (root : Text) (existing : List Rule) (w : W)
      → (b.list_rows w).0 ≡ ok existing
      → All (Present existing) (definitions_with_root is_file root)
      → ensure_installed_with_root b lower is_file root w ≡ (ok 0, (b.list_rows w).1)
  unfolding ensure_installed_with_root install_missing
  ensure_installed_again is_file root existing w h present =
      rw
        (
          h,
          nothing_missing existing (definitions_with_root is_file root) (0, (b.list_rows w).1)
              present,
        )
        refl

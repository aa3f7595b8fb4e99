-- ===== src/Rule/Import/Kept.antt =====
-- What an import of service/src/rule/import_export.rs does before its batch leaves the rules that were
-- inserted as they are.
use ceasefire.Prelude.{ℕ, refl, ◌∙◌, List, [], ◌∷◌}
use ceasefire.Text.{Text}
use ceasefire.Models.{Rule, AppGroup, ImportMode, merge, replace}
use ceasefire.Rule.Manager.{Backend, delete_rule_internal}
use ceasefire.Rule.Manager.Leaves.{Stays, Stays-then, delete_rule_internal_leaves}
use ceasefire.Rule.Import.{ImportStore, delete_all, clear_users, row_ids, user_rules}
use ceasefire.Rule.Import.Promises.{Promises}

module _ {W : Type 0} (rows : W → List Rule) (groups : W → List AppGroup) (inserted : W → List Rule)
    (b : Backend W) (store : ImportStore W) (lower : Text → Text)
    (p : Promises rows groups inserted b store) where
  delete_all_inserted : (ids : List ℕ) → Stays inserted (delete_all b store lower ids)
  unfolding delete_all
  delete_all_inserted [] w = refl
  delete_all_inserted (id ∷ ids) w =
      delete_all_inserted ids ((delete_rule_internal b lower id w).1)
      ∙ delete_rule_internal_leaves inserted b lower p.others id w

  pub clear_users_inserted : (mode : ImportMode) → Stays inserted (clear_users b store lower mode)
  unfolding clear_users
  clear_users_inserted merge = λ w. refl
  clear_users_inserted replace =
      Stays-then inserted b.list_rows _ (λ w. (p.list_rows_keeps w).2)
        (λ rules. delete_all_inserted (row_ids (user_rules rules)))

-- ===== src/Tests/Manager.antt =====
-- The theorems on `RuleManager` at a concrete database and driver.
use ceasefire.Prelude.{
  ◌≢◌, ℕ, List, ◌∷◌, not, ◌<◌, ◌≤◌, ◌≡◌, refl, sym, ap, ◌∙◌, Bool, true, false, [], Option, none,
  some, Result, ok, err, if◌then◌else◌, ◌==◌, unwrap_or, is_some, Option-cases, inl, inr, arith,
  List-discrete, ℕ_discrete, keep,
}
use ceasefire.Prelude.State.{Done}
use ceasefire.Prelude.Table.{some_injective, some_not_none}
use ceasefire.Errors.{ServiceError, driver, validation, other}
use ceasefire.Text.{
  codes, starts_with, strip_prefix, trim, split, utf8_len, contains_char, is_ascii_alphanumeric,
}
use ceasefire.Models.{Rule}
use ceasefire.Rule.Manager.{
  Backend, with_id, switched, group_rule_id_base, enable_rule, disable_rule, update_rule_internal,
  is_system, update_rule, delete_rule, expanded_rule_id, create_rule, load_rules_to_driver,
}
use ceasefire.Rule.Manager.Promises.{timeless, seen, Keeps, Synced, Promises, Writes}
use ceasefire.Rule.Manager.Switch.{Switches, enable_rule-Switches, disable_rule-Switches}
use ceasefire.Rule.Manager.Update.{Updates, update_rule_internal-Updates}
use ceasefire.Rule.Manager.Faults.{update_rule_refused, update_rule_domain_switch}
use ceasefire.Rule.Manager.Create.{Creates, create_rule-Creates}
use ceasefire.Rule.Manager.Delete.{Ends, deletes, delete_rule-Ends}
use ceasefire.Rule.Manager.Load.{Loads, load_rules_to_driver-Loads}
use ceasefire.Rule.Merge.{merge_target}
use ceasefire.Rule.Manager.Ids.{expanded_rule_id_distinct}
use ceasefire.Rule.Manager.Guard.{restated, system_rule_protected}
use ceasefire.Rule.Validator.{validate_rule, check_addr, check_domain}
use ceasefire.Rule.Domain.{validate_domain}
use ceasefire.Shadow.{shadow_rule_id_base}
use ceasefire.Tests.{lower, block_all, to_domain}

abbrev Slots : Type 0
Slots = ℕ → Option Rule

abbrev put : ℕ → Option Rule → Slots → Slots
put id o s i = if i == id then o else s i

-- A database and a driver, which accepts calls or not.
pub record World : Type 0 where
  stored : Slots
  loaded : Slots
  accepts : Bool

abbrev named : ℕ → Option Rule → Option Rule
named id none = none
named id (some r) = some (with_id id r)

-- The rule 7 is the only one that is listed.
abbrev listed : Option Rule → List Rule
listed none = []
listed (some r) = r ∷ []

abbrev store : ℕ → Option Rule → World → World
store id o w = record w { stored = put id o w.stored }

abbrev load : ℕ → Option Rule → World → World
load id o w = record w { loaded = put id o w.loaded }

abbrev answer : Bool → World → World → Result ServiceError Done × World
answer a w w' = if a then (ok tt, w') else (err (driver other), w)

abbrev pub backend : Backend World
backend = record {
  create_row = λ r w.
      (if is_some (w.stored 100) then (err (driver other), w) else (ok 100, store 100 (some r) w));
  get_row = λ id w. (ok (named id (w.stored id)), w);
  update_row = λ id r w. (ok tt, store id (some r) w);
  delete_row = λ id w. (ok tt, store id none w);
  list_rows = λ w. (ok (listed (w.stored 7)), w);
  members = λ g w. [];
  add_rule = λ r w. answer w.accepts w (load (unwrap_or 0 r.id) (some (timeless r)) w);
  update_rule = λ r w. answer w.accepts w (load (unwrap_or 0 r.id) (some (timeless r)) w);
  remove_rule = λ id w. answer w.accepts w (load id none w);
  clear_rules = λ w. (ok tt, record w { loaded = λ i. none });
  revoke = λ id w. w;
  resync = λ w. w;
}

abbrev row : World → ℕ → Option Rule
row w i = seen (named i (w.stored i))

abbrev live : World → ℕ → Option Rule
live w i = w.loaded i

same_number : (i : ℕ) → (i == i) ≡ true
same_number i = ground arith

put_here : (id : ℕ) (o : Option Rule) (s : Slots) → put id o s id ≡ o
put_here id o s = rw (same_number id) refl

abbrev SameResult : {A : Type 0} → Result ServiceError A → Result ServiceError A → Type 0
SameResult r s = r ≡ s

row_here : (id : ℕ) (o : Option Rule) (w : World) → row (store id o w) id ≡ seen (named id o)
row_here id o w = ap (λ x. seen (named id x)) (put_here id o w.stored)

ok_not_err : {A : Type 0} {a : A} {e : ServiceError} → ¬ (SameResult (ok a) (err e))
ok_not_err h = cc

some_result : {A : Type 0} {a b : A} → SameResult (ok a) (ok b) → a ≡ b
some_result h = cc

answer-ok : (a : Bool) (w w' : World) → (answer a w w').0 ≡ ok tt → (answer a w w').1 ≡ w'
answer-ok true w w' h = refl
answer-ok false w w' h = absurd (ok_not_err (sym h))

answer-err :
    (a : Bool) (w w' : World) (e : ServiceError) → (answer a w w').0 ≡ err e → (answer a w w').1 ≡ w
answer-err true w w' e h = absurd (ok_not_err h)
answer-err false w w' e h = refl

row-answer :
    (a : Bool) (id i : ℕ) (o : Option Rule) (w : World)
    → row ((answer a w (load id o w)).1) i ≡ row w i
row-answer true id i o w = refl
row-answer false id i o w = refl

named_id : (id : ℕ) (o : Option Rule) (r : Rule) → named id o ≡ some r → r.id ≡ some id
named_id id none r h = absurd (some_not_none (sym h))
named_id id (some s) r h = ap (λ x. x.id) (sym (some_injective h))

loads :
    (r : Rule) (w : World) (id : ℕ)
    → r.id ≡ some id
    → (answer w.accepts w (load (unwrap_or 0 r.id) (some (timeless r)) w)).0 ≡ ok tt
    → live ((answer w.accepts w (load (unwrap_or 0 r.id) (some (timeless r)) w)).1) id
      ≡ some (timeless r)
loads r w id e h =
    ap (λ v. live v id) (answer-ok w.accepts w (load (unwrap_or 0 r.id) (some (timeless r)) w) h)
    ∙ ap (λ n. put n (some (timeless r)) w.loaded id) (ap (unwrap_or 0) e)
    ∙ put_here id (some (timeless r)) w.loaded

created :
    (r : Rule) (w : World) (id : ℕ)
    → (backend.create_row r w).0 ≡ ok id
    → (row w id ≡ none) × (row ((backend.create_row r w).1) id ≡ some (timeless (with_id id r)))
created r w id h = elim (Option-cases (w.stored 100)) [
  | inr (s, taken) ↦ absurd (ok_not_err (sym (rw taken at h)))
  | inl free ↦
      let e : 100 ≡ id = some_result (rw free at h) in
      rw (sym e, free) (refl, row_here 100 (some r) w)
]

row_there :
    (id i : ℕ) (o : Option Rule) (w : World)
    → i ≢ id
    → row (record w { stored = put id o w.stored }) i ≡ row w i
row_there id i o w n = let h : (i == id) ≡ false = ground arith in rw h refl

created_others :
    (r : Rule) (w : World) (id i : ℕ)
    → (backend.create_row r w).0 ≡ ok id
    → i ≢ id
    → row ((backend.create_row r w).1) i ≡ row w i
created_others r w id i h n = elim (Option-cases (w.stored 100)) [
  | inr (s, taken) ↦ rw taken refl
  | inl free ↦
      let e : 100 ≡ id = some_result (rw free at h) in
      rw free (row_there 100 i (some r) w (λ q. n (q ∙ e)))
]

created_live : (r : Rule) (w : World) (i : ℕ) → live ((backend.create_row r w).1) i ≡ live w i
created_live r w i = elim (Option-cases (w.stored 100)) [
  | inr (s, taken) ↦ rw taken refl
  | inl free ↦ rw free refl
]

not_created :
    (r : Rule) (w : World) (e : ServiceError) (i : ℕ)
    → (backend.create_row r w).0 ≡ err e
    → Keeps row live i w ((backend.create_row r w).1)
not_created r w e i h = elim (Option-cases (w.stored 100)) [
  | inr (s, taken) ↦ rw taken (refl, refl)
  | inl free ↦ absurd (ok_not_err (rw free at h))
]

promises : Promises row live backend
promises = record {
  get_row_keeps = λ id i w. (refl, refl);
  get_row_ok = λ id w o h. ap seen (some_result h);
  get_row_id = λ id w r h. named_id id (w.stored id) r (some_result h);
  list_rows_keeps = λ i w. (refl, refl);
  create_row_ok = created;
  create_row_others = created_others;
  create_row_live = created_live;
  create_row_err = not_created;
  update_row_ok = λ id r old w e h. row_here id (some r) w;
  update_row_err = λ id r w e h. absurd (ok_not_err h);
  update_row_live = λ id r w. refl;
  delete_row_ok = λ id w h. row_here id none w;
  delete_row_err = λ id w e h. absurd (ok_not_err h);
  delete_row_others = λ id i w n. row_there id i none w n;
  delete_row_live = λ id i w. refl;
  add_rule_row = λ r w i. row-answer w.accepts (unwrap_or 0 r.id) i (some (timeless r)) w;
  add_rule_ok = loads;
  add_rule_err = λ r w e i h.
      ap (λ v. live v i)
        (answer-err w.accepts w (load (unwrap_or 0 r.id) (some (timeless r)) w) e h);
  update_rule_row = λ r w i. row-answer w.accepts (unwrap_or 0 r.id) i (some (timeless r)) w;
  update_rule_ok = loads;
  update_rule_err = λ r w e i h.
      ap (λ v. live v i)
        (answer-err w.accepts w (load (unwrap_or 0 r.id) (some (timeless r)) w) e h);
  remove_rule_row = λ id w i. row-answer w.accepts id i none w;
  remove_rule_ok = λ id w h.
      ap (λ v. live v id) (answer-ok w.accepts w (load id none w) h) ∙ put_here id none w.loaded;
  remove_rule_err = λ id w e i h. ap (λ v. live v i) (answer-err w.accepts w (load id none w) e h);
  revoke_keeps = λ id i w h. (refl, refl);
}

writes : Writes row live backend
writes = (λ id r w. refl, λ id w. refl)

-- The rule 7 of the tests, in the database and in the driver.
abbrev running : Bool → World
running accepts = record {
  stored = put 7 (some block_all) (λ i. none);
  loaded = put 7 (some block_all) (λ i. none);
  accepts = accepts;
}

abbrev pub stopped : World
stopped = record {
  stored = put 7 (some (switched false block_all)) (λ i. none);
  loaded = λ i. none;
  accepts = true;
}

groupless : (s : Bool) (r : Rule) → some (switched s block_all) ≡ some r → r.app_group_id ≡ none
groupless s r h = ap (λ x. x.app_group_id) (sym (some_injective h))

enable_rule-Switches_example :
    Switches row live backend lower promises writes true 7 stopped
      (enable_rule backend lower 7 stopped)
enable_rule-Switches_example =
    enable_rule-Switches row live backend lower promises writes 7 stopped (groupless false) refl

-- Here the driver does not let go of the rule.
disable_rule-Switches_example :
    Switches row live backend lower promises writes false 7
      (running false)
      (disable_rule backend lower 7 (running false))
disable_rule-Switches_example =
    disable_rule-Switches row live backend lower promises writes 7 (running false) (omega arith)
      (groupless true) refl

abbrev renamed : Rule
renamed = record block_all { name = codes "s" }

same_kind :
    (old : Rule)
    → some block_all ≡ some old
    → (is_some old.remote_domain ≡ is_some renamed.remote_domain)
      × (is_some old.app_group_id ≡ false)
      × (old.enabled ≡ true → renamed.enabled ≡ true)
same_kind old h =
    let e : block_all ≡ old = some_injective h in
    (
      ap (λ x. is_some x.remote_domain) (sym e),
      ap (λ x. is_some x.app_group_id) (sym e),
      λ on. refl,
    )

update_rule_internal-Updates_example :
    Updates row live backend lower promises writes 7 renamed
      (update_rule_internal backend lower 7 renamed (running true))
update_rule_internal-Updates_example =
    update_rule_internal-Updates row live backend lower promises writes 7 renamed (running true)
      (omega arith) refl refl same_kind

valid_off : validate_rule (switched false renamed) ≡ ok tt
unfolding validate_rule trim check_addr
valid_off = refl

valid_domain : validate_rule (to_domain (codes "example.com")) ≡ ok tt
unfolding validate_rule trim check_addr check_domain split validate_domain List-discrete ℕ_discrete
    utf8_len strip_prefix contains_char is_ascii_alphanumeric
valid_domain = refl

update_rule_refused_example :
    let off = switched false renamed in
    ((update_rule_internal backend lower 7 off (running false)).0 ≡ err (driver other))
    × (row ((update_rule_internal backend lower 7 off (running false)).1) 7
        ≡ some (timeless (with_id 7 (switched true off))))
    × (live ((update_rule_internal backend lower 7 off (running false)).1) 7
        ≡ live (running false) 7)
update_rule_refused_example =
    update_rule_refused row live backend lower promises writes 7 block_all (switched false renamed)
      (running false) (driver other) valid_off refl refl refl refl refl refl refl refl

update_rule_domain_switch_example :
    let named_rule = to_domain (codes "example.com") in
    ((update_rule_internal backend lower 7 named_rule (running true)).0 ≡ ok tt)
    × ¬ (Synced row live 7 ((update_rule_internal backend lower 7 named_rule (running true)).1))
update_rule_domain_switch_example =
    update_rule_domain_switch row live backend lower promises writes 7 block_all
      (to_domain (codes "example.com")) (running true) (omega arith) valid_domain refl refl refl
      refl refl refl refl

abbrev own : Rule
own = record block_all { name = codes "[System] DNS" }

abbrev guarded : World
guarded = record { stored = put 7 (some own) (λ i. none); loaded = λ i. none; accepts = true }

own-is_system : is_system own ≡ true
unfolding is_system starts_with strip_prefix
own-is_system = refl

renamed_differs : renamed ≢ restated own renamed
renamed_differs h = cc (ap (λ r. r.name) h)

system_rule_protected_example :
    ((delete_rule backend lower 7 guarded).0 ≡ err (validation other))
    × Keeps row live 7 guarded ((delete_rule backend lower 7 guarded).1)
    × ((update_rule backend lower 7 renamed guarded).0 ≡ err (validation other))
    × Keeps row live 7 guarded ((update_rule backend lower 7 renamed guarded).1)
    × (update_rule backend lower 7 (restated own (switched false own)) guarded
        ≡ update_rule_internal backend lower 7 (restated own (switched false own)) guarded)
system_rule_protected_example =
    system_rule_protected row live backend lower promises 7 7 own renamed (switched false own)
      guarded refl own-is_system renamed_differs

expanded_rule_id_distinct_example :
    (expanded_rule_id 3 5 ≡ expanded_rule_id 4 5 → ◌≡◌ {A = ℕ} 3 4 × ◌≡◌ {A = ℕ} 5 5)
    × (group_rule_id_base ≤ expanded_rule_id 3 5)
    × (expanded_rule_id 3 5 < shadow_rule_id_base)
expanded_rule_id_distinct_example =
    expanded_rule_id_distinct 3 4 5 5 (omega arith) (omega arith) (omega arith) (omega arith)

-- No rules, and a driver that refuses.
abbrev bare : World
bare = record { stored = λ i. none; loaded = λ i. none; accepts = false }

unmerged :
    (rs : List Rule)
    → (backend.list_rows bare).0 ≡ ok rs
    → merge_target lower (keep (λ r. not (is_system r)) rs) block_all ≡ none
unfolding merge_target
unmerged rs h =
    ap (λ x. merge_target lower (keep (λ r. not (is_system r)) x) block_all) (sym (some_result h))

create_rule-Creates_example :
    Creates row live backend lower promises writes block_all bare
      (create_rule backend lower block_all bare)
create_rule-Creates_example =
    create_rule-Creates row live backend lower promises writes block_all bare refl (λ i. refl)
      (λ user rs h. unmerged rs h)

load_rules_to_driver-Loads_example :
    Loads backend lower (running true) (load_rules_to_driver backend lower (running true))
load_rules_to_driver-Loads_example = load_rules_to_driver-Loads backend lower (running true)

delete_rule-Ends_example :
    Ends row live backend lower promises writes
      (deletes row live backend lower promises writes 7 (running false))
      7
      (running false)
      (delete_rule backend lower 7 (running false))
delete_rule-Ends_example =
    delete_rule-Ends row live backend lower promises writes 7 (running false) (omega arith)
      (groupless true) refl

-- ===== src/Rule/Select/First.antt =====
-- The rule that is chosen for a connection is the most urgent that matches.
use ceasefire.Prelude.{
  ℕ, ◌≤◌, ◌≡◌, ◌⊎◌, refl, sym, ◌∙◌, Bool, true, false, List, [], ◌∷◌, Option, Option-cases, none,
  some, ◌&&◌, leb, keep, find, if◌then◌else◌, All, All-weaken, ap, Bool-cases, inl, inr, arith,
  true_not_false,
}
use ceasefire.Prelude.Table.{some_injective}
use ceasefire.Text.{Text}
use ceasefire.Models.{Rule, ConnectionInfo}
use ceasefire.Rule.Select.{
  insert_rule, sort_by_priority, load_group_paths, matches_rule_with_groups, get_matching_rule,
}

-- A rule stands in a list.
abbrev pub Listed : Rule → List Rule → Type 0
Listed r [] = ⊥
Listed r (x ∷ xs) = (r ≡ x) ⊎ Listed r xs

Listed-All : (l : List Rule) → All (λ x. Listed x l) l
Listed-All [] = tt
Listed-All (x ∷ l) = (inl refl, All-weaken l (λ a h. inr h) (Listed-All l))

Sorted : List Rule → Type 0
Sorted [] = Unit
Sorted (x ∷ l) = All (λ y. x.priority ≤ y.priority) l × Sorted l

module _ (P : Rule → Type 0) where
  All-insert : (r : Rule) (l : List Rule) → P r → All P l → All P (insert_rule r l)
  unfolding insert_rule
  All-insert r [] p h = (p, tt)
  All-insert r (x ∷ l) p (q, h) = elim (Bool-cases (leb r.priority x.priority)) [
    | inl g ↦ rw g (p, (q, h))
    | inr g ↦ rw g (q, All-insert r l p h)
  ]

  All-uninsert : (r : Rule) (l : List Rule) → All P (insert_rule r l) → P r × All P l
  unfolding insert_rule
  All-uninsert r [] (p, h) = (p, tt)
  All-uninsert r (x ∷ l) h = elim (Bool-cases (leb r.priority x.priority)) [
    | inl g ↦ let (p, k) = (rw g at h) in (p, k)
    | inr g ↦ let (q, k) = (rw g at h) in let (p, m) = All-uninsert r l k in (p, (q, m))
  ]

  All-sort : (l : List Rule) → All P l → All P (sort_by_priority l)
  unfolding sort_by_priority
  All-sort [] h = tt
  All-sort (x ∷ l) (p, h) = All-insert x (sort_by_priority l) p (All-sort l h)

  All-unsort : (l : List Rule) → All P (sort_by_priority l) → All P l
  unfolding sort_by_priority
  All-unsort [] h = tt
  All-unsort (x ∷ l) h = let (p, k) = All-uninsert x (sort_by_priority l) h in (p, All-unsort l k)

  All-keep : (f : Rule → Bool) (l : List Rule) → All P l → All P (keep f l)
  All-keep f [] h = tt
  All-keep f (x ∷ l) (p, h) = elim (Bool-cases (f x)) [
    | inl g ↦ rw g (p, All-keep f l h)
    | inr g ↦ rw g (All-keep f l h)
  ]

  All-unkeep : (f : Rule → Bool) (l : List Rule) → All P (keep f l) → All (λ x. f x ≡ true → P x) l
  All-unkeep f [] h = tt
  All-unkeep f (x ∷ l) h = elim (Bool-cases (f x)) [
    | inl g ↦ let (p, k) = (rw g at h) in (λ q. p, All-unkeep f l k)
    | inr g ↦ (λ q. absurd (true_not_false (sym q ∙ g)), All-unkeep f l (rw g at h))
  ]

  All-find : (f : Rule → Bool) (l : List Rule) {r : Rule} → All P l → find f l ≡ some r → P r
  All-find f [] h e = cc
  All-find f (x ∷ l) {r} (p, h) e = elim (Bool-cases (f x)) [
    | inl g ↦ let q : x ≡ r = some_injective (rw g at e) in rw (sym q) p
    | inr g ↦ All-find f l h (rw g at e)
  ]

kept-All : (f : Rule → Bool) (l : List Rule) → All (λ x. f x ≡ true) (keep f l)
kept-All f [] = tt
kept-All f (x ∷ l) = elim (Bool-cases (f x)) [
  | inl g ↦ rw g (g, kept-All f l)
  | inr g ↦ rw g (kept-All f l)
]

insert-Sorted : (r : Rule) (l : List Rule) → Sorted l → Sorted (insert_rule r l)
unfolding insert_rule Sorted
insert-Sorted r [] s = (tt, tt)
insert-Sorted r (x ∷ l) (a, s) = elim (Bool-cases (leb r.priority x.priority)) [
  | inl g ↦
      let h : r.priority ≤ x.priority = ground arith in
      rw g ((h, All-weaken l (λ y k. omega arith) a), (a, s))
  | inr g ↦
      let h : x.priority ≤ r.priority = ground arith in
      rw g (All-insert _ r l h a, insert-Sorted r l s)
]

sort-Sorted : (l : List Rule) → Sorted (sort_by_priority l)
unfolding sort_by_priority Sorted
sort-Sorted [] = tt
sort-Sorted (x ∷ l) = insert-Sorted x (sort_by_priority l) (sort-Sorted l)

find_first :
    (f : Rule → Bool) (l : List Rule) {r : Rule}
    → Sorted l
    → find f l ≡ some r
    → (f r ≡ true) × All (λ x. f x ≡ true → r.priority ≤ x.priority) l
unfolding Sorted
find_first f [] s e = cc
find_first f (x ∷ l) {r} (a, s) e = elim (Bool-cases (f x)) [
  | inl g ↦
      let q : x ≡ r = some_injective (rw g at e) in
      let h : f r ≡ true = rw (sym q) g in
      let k : x.priority ≡ r.priority = ap (λ y. y.priority) q in
      (h, (λ t. omega arith, All-weaken l (λ y m t. omega arith) a))
  | inr g ↦
      let (h, k) = find_first f l s (rw g at e) in
      (h, (λ t. absurd (true_not_false (sym t ∙ g)), k))
]

find-none : (f : Rule → Bool) (l : List Rule) → find f l ≡ none → All (λ x. f x ≡ false) l
find-none f [] e = tt
find-none f (x ∷ l) e = elim (Bool-cases (f x)) [
  | inl g ↦ cc
  | inr g ↦ (g, find-none f l (rw g at e))
]

never : (a b : Bool) → (a ≡ true → b ≡ false) → (a && b) ≡ false
never true b h = h refl
never false b h = refl

whenever : (a b : Bool) {P : Type 0} → (a ≡ true → b ≡ true → P) → (if a && b then P else Unit {0})
whenever true true h = h refl refl
whenever true false h = tt
whenever false b h = tt

module _ (lower : Text → Text) (members : ℕ → List Text) (rules : List Rule)
    (c : ConnectionInfo) where
  -- The whole test of a rule against the connection.
  abbrev pub applies : Rule → Bool
  applies r = matches_rule_with_groups lower members (load_group_paths lower members rules) r c

  get_matching_rule_cases :
      ((r : Rule)
        → get_matching_rule lower members rules c ≡ some r
        → Listed r rules
          × (r.enabled ≡ true)
          × (applies r ≡ true)
          × All (λ x. x.enabled ≡ true → applies x ≡ true → r.priority ≤ x.priority) rules)
      × (get_matching_rule lower members rules c ≡ none
          → All (λ x. x.enabled ≡ true → applies x ≡ false) rules)
  unfolding get_matching_rule
  get_matching_rule_cases =
      let on : List Rule = keep (λ r. r.enabled) rules in
      (
        λ r e.
            let (m, least) = find_first applies (sort_by_priority on) (sort-Sorted on) e in
            (
              All-find _ applies _ (All-sort _ on (All-keep _ _ rules (Listed-All rules))) e,
              All-find _ applies _ (All-sort _ on (kept-All _ rules)) e,
              m,
              All-unkeep _ _ rules (All-unsort _ on least),
            ),
        λ e. All-unkeep _ _ rules (All-unsort _ on (find-none applies (sort_by_priority on) e)),
      )

  -- How a choice ends: with one of the rules, which is enabled and matches, and whose priority number
  -- is not larger than that of any enabled rule that matches; or with none, where no enabled rule
  -- matches.
  abbrev pub Chosen : Option Rule → Type 0
  Chosen none = All (λ x. (x.enabled && applies x) ≡ false) rules
  Chosen (some r) =
      Listed r rules
      × (r.enabled ≡ true)
      × (applies r ≡ true)
      × All (λ x. if x.enabled && applies x then r.priority ≤ x.priority else Unit {0}) rules

  -- Any rule that is chosen for a connection is one of the rules, is enabled and matches, its groups
  -- counted, and its priority number is not larger than that of any enabled rule that matches. None
  -- is chosen only where no enabled rule matches.
  pub get_matching_rule-Chosen : Chosen (get_matching_rule lower members rules c)
  get_matching_rule-Chosen = elim (Option-cases (get_matching_rule lower members rules c)) [
    | inl e ↦
        rw e (All-weaken rules (λ x h. never x.enabled (applies x) h) (get_matching_rule_cases.1 e))
    | inr (r, e) ↦
        let (listed, enabled, matched, least) = get_matching_rule_cases.0 r e in
        rw e (
          listed,
          enabled,
          matched,
          All-weaken rules (λ x h. whenever x.enabled (applies x) h) least,
        )
  ]

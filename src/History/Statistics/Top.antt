-- ===== src/History/Statistics/Top.antt =====
-- The largest counts of `get_statistics`, service/src/network_history/manager.rs: the sort and the cut.
use ceasefire.Prelude.{
  ℕ, zero, suc, ◌≤◌, ◌≡◌, ◌⊎◌, refl, sym, ap, ◌∙◌, List, [], ◌∷◌, some, leb, length, take, same,
  same_refl, same→eq, list_eq, nat_eq, option_eq, arith, Bool-cases, inl, inr, All, All-weaken,
}
use ceasefire.Prelude.Table.{Table, Unique, lookup, some_not_none, some_injective, found, next}
use ceasefire.Text.{Text}
use ceasefire.Models.{rule_action_eq, protocol_eq}
use ceasefire.History.Statistics.{insert_count, sort_counts}

-- A pair stands in a list.
abbrev pub Stands : Text × ℕ → List (Text × ℕ) → Type 0
Stands x [] = ⊥
Stands x (y ∷ l) = (x ≡ y) ⊎ Stands x l

-- The largest counts come first.
abbrev pub Descending : List (Text × ℕ) → Type 0
Descending [] = Unit {0}
Descending (x ∷ l) = All (λ y. y.1 ≤ x.1) l × Descending l

module _ (P : Text × ℕ → Type 0) where
  All-insert_count : (a : Text × ℕ) (l : List (Text × ℕ)) → P a → All P l → All P (insert_count a l)
  unfolding insert_count
  All-insert_count a [] p h = (p, tt)
  All-insert_count a (x ∷ l) p (q, h) = elim (Bool-cases (leb (x.1) (a.1))) [
    | inl g ↦ rw g (p, (q, h))
    | inr g ↦ rw g (q, All-insert_count a l p h)
  ]

  pub All-sort_counts : (l : List (Text × ℕ)) → All P l → All P (sort_counts l)
  unfolding sort_counts
  All-sort_counts [] h = tt
  All-sort_counts (x ∷ l) (p, h) = All-insert_count x (sort_counts l) p (All-sort_counts l h)

  pub All-take : (n : ℕ) (l : List (Text × ℕ)) → All P l → All P (take n l)
  All-take zero l h = tt
  All-take (suc n) [] h = tt
  All-take (suc n) (x ∷ l) (p, h) = (p, All-take n l h)

  All-Stands : (x : Text × ℕ) (l : List (Text × ℕ)) → All P l → Stands x l → P x
  All-Stands x [] h s = absurd s
  All-Stands x (y ∷ l) (p, h) (inl e) = rw e p
  All-Stands x (y ∷ l) (p, h) (inr s) = All-Stands x l h s

insert_count-Descending :
    (a : Text × ℕ) (l : List (Text × ℕ)) → Descending l → Descending (insert_count a l)
unfolding insert_count
insert_count-Descending a [] d = (tt, tt)
insert_count-Descending a (x ∷ l) (h, d) = elim (Bool-cases (leb (x.1) (a.1))) [
  | inl g ↦
      let k : x.1 ≤ a.1 = ground arith in rw g ((k, All-weaken l (λ y m. omega arith) h), (h, d))
  | inr g ↦
      let k : a.1 ≤ x.1 = ground arith in
      rw g (All-insert_count _ a l k h, insert_count-Descending a l d)
]

pub sort_counts-Descending : (l : List (Text × ℕ)) → Descending (sort_counts l)
unfolding sort_counts
sort_counts-Descending [] = tt
sort_counts-Descending (x ∷ l) =
    insert_count-Descending x (sort_counts l) (sort_counts-Descending l)

pub take-Descending : (n : ℕ) (l : List (Text × ℕ)) → Descending l → Descending (take n l)
take-Descending zero l d = tt
take-Descending (suc n) [] d = tt
take-Descending (suc n) (x ∷ l) (h, d) = (All-take _ n l h, take-Descending n l d)

Stands-insert_count :
    (a x : Text × ℕ) (l : List (Text × ℕ)) → (x ≡ a) ⊎ Stands x l → Stands x (insert_count a l)
unfolding insert_count
Stands-insert_count a x [] s = s
Stands-insert_count a x (y ∷ l) s = elim (Bool-cases (leb (y.1) (a.1))) [
  | inl g ↦ rw g s
  | inr g ↦ rw g (elim s [
    | inl e ↦ inr (Stands-insert_count a x l (inl e))
    | inr (inl e) ↦ inl e
    | inr (inr k) ↦ inr (Stands-insert_count a x l (inr k))
  ])
]

pub Stands-sort_counts :
    (x : Text × ℕ) (l : List (Text × ℕ)) → Stands x l → Stands x (sort_counts l)
unfolding sort_counts
Stands-sort_counts x [] s = s
Stands-sort_counts x (y ∷ l) (inl e) = Stands-insert_count y x (sort_counts l) (inl e)
Stands-sort_counts x (y ∷ l) (inr s) =
    Stands-insert_count y x (sort_counts l) (inr (Stands-sort_counts x l s))

-- What is left out of the first `n` is not larger than any of them, and they are `n`.
pub left_out :
    (n : ℕ) (x : Text × ℕ) (l : List (Text × ℕ))
    → Descending l
    → Stands x l
    → Stands x (take n l) ⊎ ((length (take n l) ≡ n) × All (λ y. x.1 ≤ y.1) (take n l))
left_out zero x l d s = inr (refl, tt)
left_out (suc n) x [] d s = absurd s
left_out (suc n) x (y ∷ l) (h, d) (inl e) = inl (inl e)
left_out (suc n) x (y ∷ l) (h, d) (inr s) = elim (left_out n x l d s) [
  | inl t ↦ inl (inr t)
  | inr (len, small) ↦ inr (ap suc len, (All-Stands (λ z. z.1 ≤ y.1) x l h s, small))
]

pub lookup-Stands : (k : Text) (n : ℕ) (t : Table Text ℕ) → lookup k t ≡ some n → Stands (k, n) t
lookup-Stands k n [] h = cc
lookup-Stands k n ((j, m) ∷ t) h = elim (Bool-cases (same k j)) [
  | inl g ↦
      let e : k ≡ j = same→eq k j g in
      let q : n ≡ m = some_injective (sym h ∙ sym (found k j m t g)) in inl (rw (e, q))
  | inr g ↦ inr (lookup-Stands k n t (sym (next k j m t g) ∙ h))
]

pub Stands-lookup :
    (x : Text × ℕ) (t : Table Text ℕ) → Unique t → Stands x t → lookup (x.0) t ≡ some (x.1)
Stands-lookup x [] u s = absurd s
Stands-lookup x ((j, m) ∷ t) u (inl e) = rw (e, same_refl j)
Stands-lookup x ((j, m) ∷ t) (fresh, u) (inr s) =
    let h = Stands-lookup x t u s in
    elim (Bool-cases (same (x.0) j)) [
      | inl g ↦ absurd (some_not_none (sym h ∙ ap (λ k. lookup k t) (same→eq (x.0) j g) ∙ fresh))
      | inr g ↦ next (x.0) j m t g ∙ h
    ]

pub All-of :
    (P : Text × ℕ → Type 0) (l : List (Text × ℕ)) → ((x : Text × ℕ) → Stands x l → P x) → All P l
All-of P [] h = tt
All-of P (x ∷ l) h = (h x (inl refl), All-of P l (λ y s. h y (inr s)))

-- ===== src/Prelude/Table.antt =====
-- `HashMap` as a list of keys and values. The order of iteration, which Rust leaves open, is that of
-- the list.
use ceasefire.Prelude.{
  ◌≡◌, ◌≢◌, refl, Bool, true, false, List, [], ◌∷◌, Option, none, some, if◌then◌else◌, Bool-cases,
  inl, inr, keep, Eq, sym, ◌∙◌, same, same→eq, same_refl, not_same, differ,
}

pub some_not_none {ℓ} : {A : Type ℓ} {a : A} → some a ≢ none
some_not_none h = cc

pub some_injective {ℓ} : {A : Type ℓ} {a b : A} → some a ≡ some b → a ≡ b
some_injective h = cc

abbrev pub Table {ℓ κ} : Type ℓ → Type κ → Type (ℓ ⊔ κ)
Table K V = List (K × V)

module _ {ℓ κ} {K : Type ℓ} {V : Type κ} ⦃e : Eq K⦄ where
  -- `get`
  abbrev pub lookup : K → Table K V → Option V
  lookup k [] = none
  lookup k ((j, v) ∷ t) = if same k j then some v else lookup k t

  -- `insert`
  abbrev pub insert : K → V → Table K V → Table K V
  insert k v [] = (k, v) ∷ []
  insert k v ((j, w) ∷ t) =
      let rest = insert k v t in if same k j then (k, v) ∷ t else (j, w) ∷ rest

  -- `remove`
  abbrev pub remove : K → Table K V → Table K V
  remove k [] = []
  remove k ((j, w) ∷ t) = let rest = remove k t in if same k j then rest else (j, w) ∷ rest

  -- Each key stands once.
  abbrev pub Unique : Table K V → Type κ
  Unique [] = Unit
  Unique ((j, w) ∷ t) = (lookup j t ≡ none) × Unique t

  pub found : (k j : K) (w : V) (t : Table K V) → same k j ≡ true → some w ≡ lookup k ((j, w) ∷ t)
  found k j w t g = rw g

  pub next :
      (k j : K) (w : V) (t : Table K V) → same k j ≡ false → lookup k ((j, w) ∷ t) ≡ lookup k t
  next k j w t g = rw g

  pub lookup-insert : (k : K) (v : V) (t : Table K V) → lookup k (insert k v t) ≡ some v
  lookup-insert k v [] = rw (same_refl k)
  lookup-insert k v ((j, w) ∷ t) = elim (Bool-cases (same k j)) [
    | inl h ↦ rw (h, same_refl k)
    | inr h ↦ rw (h, h) (lookup-insert k v t)
  ]

  pub lookup-insert_other :
      (k j : K) (v : V) (t : Table K V) → j ≢ k → lookup j (insert k v t) ≡ lookup j t
  lookup-insert_other k j v [] n = rw (not_same j k n)
  lookup-insert_other k j v ((i, w) ∷ t) n = elim (Bool-cases (same k i)) [
    | inl h ↦
        let ki : k ≡ i = same→eq k i h in
        let ji : same j i ≡ false = rw (sym ki) (not_same j k n) in rw (h, not_same j k n, ji)
    | inr h ↦ elim (Bool-cases (same j i)) [
      | inl g ↦ rw (h, g)
      | inr g ↦ rw (h, g) (lookup-insert_other k j v t n)
    ]
  ]

  pub lookup-remove : (k : K) (t : Table K V) → lookup k (remove k t) ≡ none
  lookup-remove k [] = refl
  lookup-remove k ((j, w) ∷ t) = elim (Bool-cases (same k j)) [
    | inl h ↦ rw h (lookup-remove k t)
    | inr h ↦ rw (h, h) (lookup-remove k t)
  ]

  pub lookup-remove_other : (k j : K) (t : Table K V) → j ≢ k → lookup j (remove k t) ≡ lookup j t
  lookup-remove_other k j [] n = refl
  lookup-remove_other k j ((i, w) ∷ t) n = elim (Bool-cases (same k i)) [
    | inl h ↦
        let ki : k ≡ i = same→eq k i h in
        let ji : same j i ≡ false = rw (sym ki) (not_same j k n) in
        rw (h, ji) (lookup-remove_other k j t n)
    | inr h ↦ elim (Bool-cases (same j i)) [
      | inl g ↦ rw (h, g)
      | inr g ↦ rw (h, g) (lookup-remove_other k j t n)
    ]
  ]

  pub insert-Unique : (k : K) (v : V) (t : Table K V) → Unique t → Unique (insert k v t)
  insert-Unique k v [] u = (refl, tt)
  insert-Unique k v ((j, w) ∷ t) (fresh, u) = elim (Bool-cases (same k j)) [
    | inl h ↦ rw (h, same→eq k j h) (fresh, u)
    | inr h ↦
        let n : j ≢ k = λ p. differ k j h (sym p) in
        rw h (lookup-insert_other k j v t n ∙ fresh, insert-Unique k v t u)
  ]

  pub lookup-remove_absent :
      (k j : K) (t : Table K V) → lookup j t ≡ none → lookup j (remove k t) ≡ none
  lookup-remove_absent k j t h = elim (Bool-cases (same j k)) [
    | inl g ↦ rw (same→eq j k g) (lookup-remove k t)
    | inr g ↦ lookup-remove_other k j t (differ j k g) ∙ h
  ]

  pub remove-Unique : (k : K) (t : Table K V) → Unique t → Unique (remove k t)
  remove-Unique k [] u = tt
  remove-Unique k ((j, w) ∷ t) (fresh, u) = elim (Bool-cases (same k j)) [
    | inl h ↦ rw h (remove-Unique k t u)
    | inr h ↦ rw h (lookup-remove_absent k j t fresh, remove-Unique k t u)
  ]

  -- `retain`
  pub lookup-keep_absent :
      (p : K × V → Bool) (k : K) (t : Table K V) → lookup k t ≡ none → lookup k (keep p t) ≡ none
  lookup-keep_absent p k [] h = refl
  lookup-keep_absent p k ((j, w) ∷ t) h = elim (Bool-cases (same k j)) [
    | inl g ↦ absurd (some_not_none (found k j w t g ∙ h))
    | inr g ↦
        let ih = lookup-keep_absent p k t (sym (next k j w t g) ∙ h) in
        elim (Bool-cases (p (j, w))) [ inl q ↦ rw (q, g) ih | inr q ↦ rw q ih ]
  ]

  pub lookup-keep_live :
      (p : K × V → Bool) (k : K) (v : V) (t : Table K V)
      → lookup k t ≡ some v
      → p (k, v) ≡ true
      → lookup k (keep p t) ≡ some v
  lookup-keep_live p k v [] h live = absurd (some_not_none (sym h))
  lookup-keep_live p k v ((j, w) ∷ t) h live = elim (Bool-cases (same k j)) [
    | inl g ↦
        let wv : w ≡ v = some_injective (found k j w t g ∙ h) in
        let q : p (j, w) ≡ true = rw (sym (same→eq k j g), wv) live in rw (q, g, wv)
    | inr g ↦
        let ih = lookup-keep_live p k v t (sym (next k j w t g) ∙ h) live in
        elim (Bool-cases (p (j, w))) [ inl q ↦ rw (q, g) ih | inr q ↦ rw q ih ]
  ]

  pub lookup-keep_dead :
      (p : K × V → Bool) (k : K) (v : V) (t : Table K V)
      → Unique t
      → lookup k t ≡ some v
      → p (k, v) ≡ false
      → lookup k (keep p t) ≡ none
  lookup-keep_dead p k v [] u h dead = refl
  lookup-keep_dead p k v ((j, w) ∷ t) (fresh, u) h dead = elim (Bool-cases (same k j)) [
    | inl g ↦
        let wv : w ≡ v = some_injective (found k j w t g ∙ h) in
        let q : p (j, w) ≡ false = rw (sym (same→eq k j g), wv) dead in
        let absent : lookup k t ≡ none = rw (same→eq k j g) fresh in
        rw q (lookup-keep_absent p k t absent)
    | inr g ↦
        let ih = lookup-keep_dead p k v t u (sym (next k j w t g) ∙ h) dead in
        elim (Bool-cases (p (j, w))) [ inl q ↦ rw (q, g) ih | inr q ↦ rw q ih ]
  ]

  pub keep-Unique : (p : K × V → Bool) (t : Table K V) → Unique t → Unique (keep p t)
  keep-Unique p [] u = tt
  keep-Unique p ((j, w) ∷ t) (fresh, u) = elim (Bool-cases (p (j, w))) [
    | inl q ↦ rw q (lookup-keep_absent p j t fresh, keep-Unique p t u)
    | inr q ↦ rw q (keep-Unique p t u)
  ]

-- ===== src/Shadow/WellFormed.antt =====
-- The invariant of the ledger of shadow rules.
use ceasefire.Prelude.{
  ℕ, ◌+◌, ◌<◌, ◌≡◌, ◌≢◌, refl, sym, ◌∙◌, not, Bool, List, [], ◌∷◌, ◌++◌, map, none, some, keep, All,
  All-append, Bool-cases, inl, inr, same, nat_eq, pair_eq,
}
use ceasefire.Prelude.Table.{
  Unique, lookup, insert, remove, found, next, some_not_none, some_injective,
}
use ceasefire.Net.{IpAddr, ip_eq}
use ceasefire.Shadow.{Entries, ShadowStore, shadow_rule_id_base}

abbrev pub ids : Entries → List ℕ
ids t = map (λ e. e.1.0) t

-- No id stands twice.
abbrev pub Distinct : List ℕ → Type 0
Distinct [] = Unit
Distinct (i ∷ l) = All (λ j. j ≢ i) l × Distinct l

-- The ids given out so far.
abbrev pub Issued : ℕ → ℕ → Type 0
Issued n i = (shadow_rule_id_base < i) × (i < shadow_rule_id_base + n)

pub record WellFormed (s : ShadowStore) : Type 0 where
  pub unique : Unique s.entries
  pub issued : All (Issued s.next_index) (ids s.entries)
  pub distinct : Distinct (ids s.entries)
  pub positive : 0 < s.next_index

pub Distinct-append :
    (l : List ℕ) (i : ℕ) → Distinct l → All (λ j. j ≢ i) l → Distinct (l ++ (i ∷ []))
Distinct-append [] i d h = (tt, tt)
Distinct-append (j ∷ l) i (fresh, d) (n, h) =
    (All-append _ l (i ∷ []) fresh ((λ p. n (sym p)), tt), Distinct-append l i d h)

-- An entry that is not yet there is put at the end.
pub ids-insert_new :
    (k : ℕ × IpAddr) (v : ℕ × ℕ) (t : Entries)
    → lookup k t ≡ none
    → ids (insert k v t) ≡ ids t ++ ((v.0) ∷ [])
ids-insert_new k v [] h = refl
ids-insert_new k v ((j, w) ∷ t) h = elim (Bool-cases (same k j)) [
  | inl g ↦ absurd (some_not_none (found k j w t g ∙ h))
  | inr g ↦ rw (g, ids-insert_new k v t (sym (next k j w t g) ∙ h))
]

pub ids-insert_same :
    (k : ℕ × IpAddr) (i old new : ℕ) (t : Entries)
    → lookup k t ≡ some (i, old)
    → ids (insert k (i, new) t) ≡ ids t
ids-insert_same k i old new [] h = absurd (some_not_none (sym h))
ids-insert_same k i old new ((j, w) ∷ t) h = elim (Bool-cases (same k j)) [
  | inl g ↦ let e : w ≡ (i, old) = some_injective (found k j w t g ∙ h) in rw (g, e)
  | inr g ↦ rw (g, ids-insert_same k i old new t (sym (next k j w t g) ∙ h))
]

pub All-ids-keep :
    (P : ℕ → Type 0) (p : (ℕ × IpAddr) × (ℕ × ℕ) → Bool) (t : Entries)
    → All P (ids t)
    → All P (ids (keep p t))
All-ids-keep P p [] h = tt
All-ids-keep P p (e ∷ t) (q, h) = elim (Bool-cases (p e)) [
  | inl g ↦ rw g (q, All-ids-keep P p t h)
  | inr g ↦ rw g (All-ids-keep P p t h)
]

pub Distinct-ids-keep :
    (p : (ℕ × IpAddr) × (ℕ × ℕ) → Bool) (t : Entries) → Distinct (ids t) → Distinct (ids (keep p t))
Distinct-ids-keep p [] h = tt
Distinct-ids-keep p (e ∷ t) (q, h) = elim (Bool-cases (p e)) [
  | inl g ↦ rw g (All-ids-keep _ p t q, Distinct-ids-keep p t h)
  | inr g ↦ rw g (Distinct-ids-keep p t h)
]

-- `remove` is a `retain` of the other keys.
pub remove-keep : (k : ℕ × IpAddr) (t : Entries) → remove k t ≡ keep (λ e. not (same k (e.0))) t
remove-keep k [] = refl
remove-keep k ((j, w) ∷ t) = elim (Bool-cases (same k j)) [
  | inl g ↦ rw g (remove-keep k t)
  | inr g ↦ rw (g, remove-keep k t)
]

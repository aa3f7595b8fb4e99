-- ===== src/Geo/Keys.antt =====
-- Lemmas on the cache's table and on its queue, service/src/geoip/service.rs.
use ceasefire.Prelude.{
  suc, ◌≡◌, ◌≢◌, refl, sym, ap, ◌∙◌, Bool, true, false, List, [], ◌∷◌, ◌++◌, none, if◌then◌else◌,
  length, same, same→eq, not_same, differ, list_eq, nat_eq, is_some, any, Bool-cases, inl, inr,
  true_not_false,
}
use ceasefire.Prelude.Table.{Table, lookup, insert, remove, Unique, some_not_none, found, next}
use ceasefire.Text.{Text}
use ceasefire.Geo.{remove_first}

abbrev pub member : Text → List Text → Bool
member ip ks = any (λ k. same k ip) ks

-- Each key stands once.
abbrev pub Distinct : List Text → Type 0
Distinct [] = Unit {0}
Distinct (k ∷ ks) = (member k ks ≡ false) × Distinct ks

module _ {V : Type 0} where
  pub length-insert_new :
      (k : Text) (v : V) (t : Table Text V)
      → lookup k t ≡ none
      → length (insert k v t) ≡ suc (length t)
  length-insert_new k v [] h = refl
  length-insert_new k v ((j, w) ∷ t) h = elim (Bool-cases (same k j)) [
    | inl e ↦ absurd (some_not_none (found k j w t e ∙ h))
    | inr e ↦ rw e (ap suc (length-insert_new k v t (sym (next k j w t e) ∙ h)))
  ]

  pub length-insert_old :
      (k : Text) (v : V) (t : Table Text V)
      → is_some (lookup k t) ≡ true
      → length (insert k v t) ≡ length t
  length-insert_old k v [] h = absurd (true_not_false (sym h))
  length-insert_old k v ((j, w) ∷ t) h = elim (Bool-cases (same k j)) [
    | inl e ↦ rw e refl
    | inr e ↦ rw e (ap suc (length-insert_old k v t (ap is_some (sym (next k j w t e)) ∙ h)))
  ]

  pub remove_absent : (k : Text) (t : Table Text V) → lookup k t ≡ none → remove k t ≡ t
  remove_absent k [] h = refl
  remove_absent k ((j, w) ∷ t) h = elim (Bool-cases (same k j)) [
    | inl e ↦ absurd (some_not_none (found k j w t e ∙ h))
    | inr e ↦ rw e (ap (λ r. (j, w) ∷ r) (remove_absent k t (sym (next k j w t e) ∙ h)))
  ]

  pub length-remove :
      (k : Text) (t : Table Text V)
      → Unique t
      → is_some (lookup k t) ≡ true
      → suc (length (remove k t)) ≡ length t
  length-remove k [] u h = absurd (true_not_false (sym h))
  length-remove k ((j, w) ∷ t) (fresh, u) h = elim (Bool-cases (same k j)) [
    | inl e ↦
        let absent : lookup k t ≡ none = ap (λ x. lookup x t) (same→eq k j e) ∙ fresh in
        rw e (ap (λ l. suc (length l)) (remove_absent k t absent))
    | inr e ↦ rw e (ap suc (length-remove k t u (ap is_some (sym (next k j w t e)) ∙ h)))
  ]

swap : (a b : Text) → same a b ≡ false → same b a ≡ false
swap a b h = not_same b a (λ e. differ a b h (sym e))

pub length-remove_first :
    (ip : Text) (ks : List Text)
    → member ip ks ≡ true
    → suc (length (remove_first ip ks)) ≡ length ks
unfolding remove_first
length-remove_first ip [] h = absurd (true_not_false (sym h))
length-remove_first ip (k ∷ ks) h = elim (Bool-cases (same k ip)) [
  | inl e ↦ rw e refl
  | inr e ↦ rw e (ap suc (length-remove_first ip ks (rw e at h)))
]

pub member-remove_first_other :
    (ip other : Text) (ks : List Text)
    → other ≢ ip
    → member other (remove_first ip ks) ≡ member other ks
unfolding remove_first
member-remove_first_other ip other [] n = refl
member-remove_first_other ip other (k ∷ ks) n = elim (Bool-cases (same k ip)) [
  | inl e ↦
      let k_other : same k other ≡ false = not_same k other (λ q. n (sym q ∙ same→eq k ip e)) in
      rw (e, k_other) refl
  | inr e ↦ elim (Bool-cases (same k other)) [
    | inl g ↦ rw (e, g) refl
    | inr g ↦ rw (e, g) (member-remove_first_other ip other ks n)
  ]
]

pub member-remove_first :
    (ip : Text) (ks : List Text) → Distinct ks → member ip (remove_first ip ks) ≡ false
unfolding remove_first
member-remove_first ip [] d = refl
member-remove_first ip (k ∷ ks) (fresh, d) = elim (Bool-cases (same k ip)) [
  | inl e ↦ rw e (ap (λ x. member x ks) (sym (same→eq k ip e)) ∙ fresh)
  | inr e ↦ rw (e, e) (member-remove_first ip ks d)
]

pub remove_first-Distinct :
    (ip : Text) (ks : List Text) → Distinct ks → Distinct (remove_first ip ks)
unfolding remove_first
remove_first-Distinct ip [] d = tt
remove_first-Distinct ip (k ∷ ks) (fresh, d) = elim (Bool-cases (same k ip)) [
  | inl e ↦ rw e d
  | inr e ↦
      rw e
        (member-remove_first_other ip k ks (differ k ip e) ∙ fresh, remove_first-Distinct ip ks d)
]

pub member-append :
    (ip k : Text) (ks : List Text)
    → member ip (ks ++ k ∷ []) ≡ (if same k ip then true else member ip ks)
member-append ip k [] = refl
member-append ip k (j ∷ ks) = elim (Bool-cases (same j ip)) [
  | inl e ↦ rw e (both (same k ip))
  | inr e ↦ rw e (member-append ip k ks)
]
  where
    both : (x : Bool) → true ≡ (if x then true else true)
    both true = refl
    both false = refl

pub append-Distinct :
    (k : Text) (ks : List Text) → Distinct ks → member k ks ≡ false → Distinct (ks ++ k ∷ [])
append-Distinct k [] d h = (refl, tt)
append-Distinct k (j ∷ ks) (fresh, d) h = elim (Bool-cases (same j k)) [
  | inl e ↦ absurd (true_not_false (rw e at h))
  | inr e ↦ (member-append j k ks ∙ rw (swap j k e) fresh, append-Distinct k ks d (rw e at h))
]

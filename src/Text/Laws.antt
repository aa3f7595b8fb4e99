-- ===== src/Text/Laws.antt =====
-- Laws of the text operations.
use mathlib.Core.List.{append_assoc}
use ceasefire.Prelude.{
  ℕ, ◌≡◌, refl, true, false, [], ◌∷◌, ◌++◌, Option, none, some, ◌==◌, Bool-cases, inl, inr, arith,
  same, same→eq, ==_iff, ap, sym, ◌∙◌, same_refl, nat_eq, list_eq,
}
use ceasefire.Text.{Text, contains_char, split, ends_with, strip_prefix, starts_with, contains}

-- A text without the separator is its only part.
pub split_of_absent : (c : ℕ) (s : Text) → contains_char c s ≡ false → split c s ≡ s ∷ []
unfolding contains_char split
split_of_absent c [] h = refl
split_of_absent c (x ∷ s) h = elim (Bool-cases (x == c)) [
  | inl e ↦ ground arith
  | inr e ↦ rw e (rw (split_of_absent c s (rw e at h)))
]

-- `ends_with` finds what stands in front.
pub ends_with_sound : (p s : Text) → ends_with p s ≡ true → (t : Text) × (s ≡ t ++ p)
unfolding ends_with
ends_with_sound [] [] h = ([], refl)
ends_with_sound (c ∷ p) [] h = cc
ends_with_sound p (c ∷ s) h = elim (Bool-cases (same (c ∷ s) p)) [
  | inl e ↦ ([], same→eq (c ∷ s) p e)
  | inr e ↦ let (t, q) = ends_with_sound p s (rw e at h) in (c ∷ t, rw q)
]

pub ends_with_complete : (p t : Text) → ends_with p (t ++ p) ≡ true
unfolding ends_with
ends_with_complete [] [] = refl
ends_with_complete (c ∷ p) [] = rw (same_refl (c ∷ p))
ends_with_complete p (c ∷ t) = elim (Bool-cases (same (c ∷ t ++ p) p)) [
  | inl e ↦ rw e
  | inr e ↦ rw e (ends_with_complete p t)
]

pub ends_with_trans :
    (p q s : Text) → ends_with p q ≡ true → ends_with q s ≡ true → ends_with p s ≡ true
ends_with_trans p q s h k =
    let (t, e) = ends_with_sound p q h in
    let (u, f) = ends_with_sound q s k in
    let g : s ≡ u ++ t ++ p = f ∙ ap (λ w. u ++ w) e ∙ sym (append_assoc u t p) in
    rw g (ends_with_complete p (u ++ t))

-- A stripped prefix stood in front.
pub strip_prefix_sound : (p s : Text) {rest : Text} → strip_prefix p s ≡ some rest → s ≡ p ++ rest
unfolding strip_prefix
strip_prefix_sound [] s h = ground arith
strip_prefix_sound (x ∷ p) [] h = cc
strip_prefix_sound (x ∷ p) (c ∷ s) {rest} h = elim (Bool-cases (x == c)) [
  | inl e ↦
      let tail : s ≡ p ++ rest = strip_prefix_sound p s (rw e at h) in rw ((==_iff x c).0 e, tail)
  | inr e ↦ ground arith
]

strip_prefix_complete : (p rest : Text) → strip_prefix p (p ++ rest) ≡ some rest
unfolding strip_prefix
strip_prefix_complete [] rest = refl
strip_prefix_complete (x ∷ p) rest = rw ((==_iff x x).1 refl) (strip_prefix_complete p rest)

starts_with_sound : (p s : Text) → starts_with p s ≡ true → (rest : Text) × (s ≡ p ++ rest)
unfolding starts_with
starts_with_sound p s h = go (strip_prefix p s) refl h
  where
    go :
        (o : Option Text)
        → strip_prefix p s ≡ o
        → (elim o [ none ↦ false | some rest ↦ true ]) ≡ true
        → (rest : Text) × (s ≡ p ++ rest)
    go none e k = cc
    go (some rest) e k = (rest, strip_prefix_sound p s e)

starts_with_complete : (p rest : Text) → starts_with p (p ++ rest) ≡ true
unfolding starts_with
starts_with_complete p rest = rw (strip_prefix_complete p rest, starts_with)

pub contains_sound :
    (p s : Text) → contains p s ≡ true → (u : Text) × (v : Text) × (s ≡ u ++ (p ++ v))
unfolding contains
contains_sound [] [] h = ([], [], refl)
contains_sound (x ∷ p) [] h = cc
contains_sound p (c ∷ s) h = elim (Bool-cases (starts_with p (c ∷ s))) [
  | inl e ↦ let (rest, q) = starts_with_sound p (c ∷ s) e in ([], rest, q)
  | inr e ↦ let (u, v, q) = contains_sound p s (rw e at h) in (c ∷ u, v, ap (λ w. c ∷ w) q)
]

pub contains_complete : (p u v : Text) → contains p (u ++ (p ++ v)) ≡ true
unfolding contains
contains_complete [] [] [] = refl
contains_complete [] [] (c ∷ v) = rw (starts_with_complete [] (c ∷ v))
contains_complete (x ∷ p) [] v = rw (starts_with_complete (x ∷ p) v)
contains_complete p (c ∷ u) v = elim (Bool-cases (starts_with p (c ∷ (u ++ (p ++ v))))) [
  | inl e ↦ rw e
  | inr e ↦ rw e (contains_complete p u v)
]

-- A text that contains another contains its suffixes.
pub contains_suffix :
    (p q s : Text) → ends_with p q ≡ true → contains q s ≡ true → contains p s ≡ true
contains_suffix p q s h k =
    let (t, e) = ends_with_sound p q h in
    let (u, v, f) = contains_sound q s k in
    let g : s ≡ (u ++ t) ++ (p ++ v) =
      f
      ∙ ap (λ w. u ++ (w ++ v)) e
      ∙ ap (λ w. u ++ w) (append_assoc t p v)
      ∙ sym (append_assoc u t (p ++ v)) in
    rw g (contains_complete p (u ++ t) v)

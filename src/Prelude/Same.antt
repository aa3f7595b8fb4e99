-- ===== src/Prelude/Same.antt =====
-- Equality tests (`==` on values that are not numbers).
use Prim.Native.Nat.{ℕ}
use mathlib.Core.Path.{◌≡◌, refl, sym, ap, ◌∙◌}
use mathlib.Core.Logic.{◌↔◌, ◌≢◌, inl, inr}
use mathlib.Core.Bool.{Bool, true, false}
use mathlib.Core.Option.{Option, none, some}
use mathlib.Core.List.{List, [], ◌∷◌}
use ceasefire.Prelude.Tests.{Bool-cases}
use native.Mathlib.Decide.{ℕ_discrete}

pub true_not_false : true ≢ false
true_not_false h = cc

pub record Eq {ℓ} (A : Type ℓ) : Type ℓ where
  pub dec : Discrete A

abbrev pub is_yes {ℓ} : {A : Type ℓ} → Dec A → Bool
is_yes (yes p) = true
is_yes (no p) = false

module _ {ℓ} {A : Type ℓ} ⦃e : Eq A⦄ where
  abbrev pub same : A → A → Bool
  same a b = is_yes (e.dec a b)

  pub same→eq : (a b : A) → same a b ≡ true → a ≡ b
  same→eq a b = go (e.dec a b)
    where
      go : (d : Dec (a ≡ b)) → is_yes d ≡ true → a ≡ b
      go (yes p) h = p
      go (no p) h = cc

  pub same_refl : (a : A) → same a a ≡ true
  same_refl a = go (e.dec a a)
    where
      go : (d : Dec (a ≡ a)) → is_yes d ≡ true
      go (yes p) = refl
      go (no p) = absurd (p refl)

  pub not_same : (a b : A) → a ≢ b → same a b ≡ false
  not_same a b n = elim (Bool-cases (same a b)) [ inl h ↦ absurd (n (same→eq a b h)) | inr h ↦ h ]

  pub differ : (a b : A) → same a b ≡ false → a ≢ b
  differ a b h p = true_not_false (sym (same_refl b) ∙ ap (λ x. same x b) (sym p) ∙ h)

  pub same_iff : (a b : A) → (same a b ≡ true) ↔ (a ≡ b)
  same_iff a b = (same→eq a b, λ p. rw p (same_refl b))

unfoldable pub List-discrete {ℓ} : {A : Type ℓ} → Discrete A → Discrete (List A)
List-discrete d = hlevel d

unfoldable pub Option-discrete {ℓ} : {A : Type ℓ} → Discrete A → Discrete (Option A)
Option-discrete d = hlevel d

instance abbrev pub nat_eq : Eq ℕ
unfolding ℕ_discrete
nat_eq = record { dec = ℕ_discrete }

instance abbrev pub list_eq {ℓ} : {A : Type ℓ} ⦃e : Eq A⦄ → Eq (List A)
unfolding List-discrete
list_eq ⦃e⦄ = record { dec = List-discrete e.dec }

instance abbrev pub option_eq {ℓ} : {A : Type ℓ} ⦃e : Eq A⦄ → Eq (Option A)
unfolding Option-discrete
option_eq ⦃e⦄ = record { dec = Option-discrete e.dec }

unfoldable pub pair-discrete {ℓ κ} :
    {A : Type ℓ} {B : Type κ} → Discrete A → Discrete B → Discrete (A × B)
pair-discrete d e = hlevel (d, e)

instance abbrev pub pair_eq {ℓ κ} : {A : Type ℓ} {B : Type κ} ⦃d : Eq A⦄ ⦃e : Eq B⦄ → Eq (A × B)
unfolding pair-discrete
pair_eq ⦃d⦄ ⦃e⦄ = record { dec = pair-discrete d.dec e.dec }

text_test : same {A = List ℕ} (1 ∷ 2 ∷ []) (1 ∷ 2 ∷ []) ≡ true
unfolding ℕ_discrete List-discrete
text_test = refl

option_test : same {A = Option ℕ} (some 1) none ≡ false
unfolding ℕ_discrete Option-discrete
option_test = refl

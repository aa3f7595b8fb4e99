-- ===== src/Event/Last.antt =====
-- The buffer holds the last entries.
use ceasefire.Prelude.{
  ℕ, zero, suc, ◌+◌, ◌-◌, ◌≤◌, ◌<◌, ◌≡◌, refl, sym, ap, ◌∙◌, List, [], ◌∷◌, ◌++◌, leb, length, drop,
  length-append, length-drop, Bool-cases, inl, inr, arith,
}
use ceasefire.Models.{LogEntry}
use ceasefire.Event.{add, add_all, drain, push_capped, max_size}

module _ {ℓ} {A : Type ℓ} where
  drop-append : (n : ℕ) (xs ys : List A) → n ≤ length xs → drop n (xs ++ ys) ≡ drop n xs ++ ys
  drop-append zero xs ys h = refl
  drop-append (suc n) [] ys h = absurd (omega arith)
  drop-append (suc n) (x ∷ xs) ys h = drop-append n xs ys (omega arith)

  drop_nil : (n : ℕ) → drop {A = A} n [] ≡ []
  drop_nil zero = refl
  drop_nil (suc n) = refl

  drop-drop : (m n : ℕ) (xs : List A) → drop m (drop n xs) ≡ drop (n + m) xs
  drop-drop m zero xs = let e : m ≡ 0 + m = omega arith in ap (λ k. drop k xs) e
  drop-drop m (suc n) [] = drop_nil m ∙ sym (drop_nil (suc n + m))
  drop-drop m (suc n) (x ∷ xs) =
      let e : suc (n + m) ≡ suc n + m = omega arith in
      drop-drop m n xs ∙ ap (λ k. drop k (x ∷ xs)) e

  append_assoc : (xs ys zs : List A) → (xs ++ ys) ++ zs ≡ xs ++ (ys ++ zs)
  append_assoc [] ys zs = refl
  append_assoc (x ∷ xs) ys zs = ap (λ l. x ∷ l) (append_assoc xs ys zs)

  append_nil : (xs : List A) → xs ++ [] ≡ xs
  append_nil [] = refl
  append_nil (x ∷ xs) = ap (λ l. x ∷ l) (append_nil xs)

  -- The last elements of a list, at most `cap`.
  abbrev pub last : ℕ → List A → List A
  last cap xs = drop (length xs - cap) xs

  push-last :
      (cap : ℕ) (x : A) (xs : List A)
      → 0 < cap
      → push_capped cap x (last cap xs) ≡ last cap (xs ++ (x ∷ []))
  unfolding push_capped
  push-last cap x xs h =
      let n : length (xs ++ (x ∷ [])) ≡ length xs + 1 = length-append xs (x ∷ []) in
      let l : length (last cap xs) ≡ length xs - (length xs - cap) =
        length-drop (length xs - cap) xs in
      elim (Bool-cases (leb cap (length (last cap xs)))) [
        | inl full ↦
            let big : cap ≤ length (last cap xs) = ground arith in
            let fits : length xs - cap + 1 ≤ length xs = omega arith in
            let e : length xs - cap + 1 ≡ length (xs ++ (x ∷ [])) - cap = omega arith in
            rw full (
              ap (λ l. l ++ (x ∷ [])) (drop-drop 1 (length xs - cap) xs)
              ∙ sym (drop-append (length xs - cap + 1) xs (x ∷ []) fits)
              ∙ ap (λ k. drop k (xs ++ (x ∷ []))) e)
        | inr room ↦
            let small : length (last cap xs) < cap = ground arith in
            let e : length xs - cap ≡ 0 = omega arith in
            let f : length (xs ++ (x ∷ [])) - cap ≡ 0 = omega arith in
            rw room (ap (λ k. drop k xs ++ (x ∷ [])) e ∙ sym (ap (λ k. drop k (xs ++ (x ∷ []))) f))
      ]

  length-last : (cap : ℕ) (xs : List A) → length (last cap xs) ≤ cap
  length-last cap xs =
      let l : length (last cap xs) ≡ length xs - (length xs - cap) =
        length-drop (length xs - cap) xs in
      omega arith

add_all-last : (es xs : List LogEntry) → add_all es (last max_size xs) ≡ last max_size (xs ++ es)
unfolding add_all add
add_all-last [] xs = rw (append_nil xs)
add_all-last (e ∷ es) xs =
    ap (add_all es) (push-last max_size e xs (omega arith))
    ∙ add_all-last es (xs ++ (e ∷ []))
    ∙ ap (last max_size) (append_assoc xs (e ∷ []) es)

-- However many entries are added to an empty buffer, draining it gives the last of them, at most
-- 1000, in their order.
pub drain-add_all :
    (es : List LogEntry)
    → ((drain (add_all es [])).0 ≡ last max_size es)
      × (length ((drain (add_all es [])).0) ≤ max_size)
unfolding drain
drain-add_all es =
    let e : add_all es [] ≡ last max_size es = add_all-last es [] in
    (e, rw e (length-last max_size es))

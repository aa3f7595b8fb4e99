-- ===== src/Net/Parse/Range.antt =====
-- A parsed address fits its width.
use native.Mathlib.Nat.{pow-suc, mul-le-mul_right}
use ceasefire.Prelude.{
  ℕ, zero, suc, ◌+◌, ◌-◌, ◌*◌, ◌^◌, ◌≤◌, ◌<◌, ◌≡◌, refl, Bool, true, false, List, [], ◌∷◌, ◌++◌,
  Option, none, some, inl, inr, length, length-append, length-replicate, replicate, All, All-append,
  arith, Option-cases,
}
use ceasefire.Prelude.Maybe.{bind_some}
use ceasefire.Text.{Text}
use ceasefire.Text.Number.{to_digit}
use ceasefire.Net.{IpAddr, v4, v6, InRange}
use ceasefire.Net.Parse.{
  read_char, read_digits, read_number, read_octet, read_next_octet, read_v4, read_colon,
  read_embedded, read_group, read_groups, value_from, read_after, read_v6, at_end, read_ip,
  parse_ip,
}

read_digits-le :
    (radix most limit : ℕ) (s : Text) (v n : ℕ) {r : ℕ × ℕ × Text}
    → v ≤ limit
    → read_digits radix most limit s v n ≡ some r
    → r.0 ≤ limit
unfolding read_digits
read_digits-le radix most limit [] v n h e = ground arith
read_digits-le radix most limit (c ∷ s) v n {r} h e = elim (Option-cases (to_digit radix c)) [
  | inl q ↦ ground arith
  | inr (d, q) ↦ ground (arith, read_digits-le radix most limit s (v * radix + d) (n + 1) {r = r})
]

read_number-le :
    (radix most : ℕ) (zeros : Bool) (limit : ℕ) (s : Text) {r : ℕ × Text}
    → read_number radix most zeros limit s ≡ some r
    → r.0 ≤ limit
unfolding read_number
read_number-le radix most zeros limit s {r} e =
    elim (Option-cases (read_digits radix most limit s 0 0)) [
      | inl q ↦ ground arith
      | inr (d, q) ↦ ground (arith, read_digits-le radix most limit s 0 0 (omega arith) q)
    ]

read_octet-le : (s : Text) {r : ℕ × Text} → read_octet s ≡ some r → r.0 ≤ 255
unfolding read_octet
read_octet-le s e = read_number-le 10 3 false 255 s e

read_next_octet-le : (s : Text) {r : ℕ × Text} → read_next_octet s ≡ some r → r.0 ≤ 255
unfolding read_next_octet
read_next_octet-le s e = let (t, p, q) = bind_some (read_char b'.' s) _ e in read_octet-le t q

-- The value of four octets.
octets_lt :
    (a b c d : ℕ)
    → a ≤ 255
    → b ≤ 255
    → c ≤ 255
    → d ≤ 255
    → ((a * 256 + b) * 256 + c) * 256 + d < 2 ^ 32
octets_lt a b c d p q r s = omega arith

read_v4-lt : (s : Text) {r : ℕ × Text} → read_v4 s ≡ some r → r.0 < 2 ^ 32
unfolding read_v4
read_v4-lt s {r} e =
    let (a, pa, ea) = bind_some (read_octet s) _ e in
    let (b, pb, eb) = bind_some (read_next_octet a.1) _ ea in
    let (c, pc, ec) = bind_some (read_next_octet b.1) _ eb in
    let (d, pd, ed) = bind_some (read_next_octet c.1) _ ec in
    let bound =
      octets_lt a.0 b.0 c.0 d.0 (read_octet-le s pa) (read_next_octet-le a.1 pb)
        (read_next_octet-le b.1 pc) (read_next_octet-le c.1 pd) in
    ground (arith, bound)

read_embedded-lt :
    (k : ℕ) (first : Bool) (s : Text) {r : ℕ × Text}
    → read_embedded k first s ≡ some r
    → (r.0 < 2 ^ 32) × (0 < k)
unfolding read_embedded
read_embedded-lt zero first s e = cc
read_embedded-lt (suc k) first s e =
    let (t, p, q) = bind_some (read_colon first s) _ e in (read_v4-lt t q, omega arith)

read_group-lt : (first : Bool) (s : Text) {r : ℕ × Text} → read_group first s ≡ some r → r.0 < 65536
unfolding read_group
read_group-lt first s e =
    let (t, p, q) = bind_some (read_colon first s) _ e in
    omega (arith, read_number-le 16 4 true 65535 t q)

abbrev IsGroup : ℕ → Type 0
IsGroup g = g < 65536

-- The groups fill at most the slots, and each is a 16-bit number.
read_groups_fit :
    (k : ℕ) (first : Bool) (s : Text)
    → (length (read_groups k first s).0 ≤ k) × All IsGroup (read_groups k first s).0
unfolding read_groups
read_groups_fit zero first s = (omega arith, tt)
read_groups_fit (suc k) first s = elim (Option-cases (read_embedded k first s)) [
  | inr (x, q) ↦ rw (q, read_groups) (omega (arith, read_embedded-lt k first s q))
  | inl q ↦ elim (Option-cases (read_group first s)) [
    | inl p ↦ rw (q, p, read_groups) (omega arith, tt)
    | inr (g, p) ↦
        rw (q, p, read_groups)
          (
            omega (arith, read_groups_fit k false g.1),
            (read_group-lt first s p, (read_groups_fit k false g.1).1),
          )
  ]
]

value_from-lt :
    (gs : List ℕ) (acc : ℕ) → All IsGroup gs → value_from acc gs < (acc + 1) * 65536 ^ length gs
unfolding value_from
value_from-lt [] acc h = omega arith
value_from-lt (g ∷ gs) acc h =
    rw (pow-suc 65536 (length gs)) (grind (arith, value_from-lt gs (acc * 65536 + g) h.1, bound))
  where
    bound : (acc * 65536 + g + 1) * 65536 ^ length gs ≤ (acc + 1) * 65536 * 65536 ^ length gs
    bound = mul-le-mul_right (65536 ^ length gs) (omega (arith, h.0))

value_of_eight-lt : (gs : List ℕ) → length gs ≡ 8 → All IsGroup gs → value_from 0 gs < 2 ^ 128
value_of_eight-lt gs e h =
    let b : value_from 0 gs < (0 + 1) * 65536 ^ length gs = value_from-lt gs 0 h in
    omega (arith, rw e at b)

All-zeros : (n : ℕ) → All IsGroup (replicate n 0)
All-zeros zero = tt
All-zeros (suc n) = (omega arith, All-zeros n)

-- The groups around `::`, with zeros between them, are eight.
padded_eight :
    (head tail : List ℕ)
    → length head ≤ 7
    → length tail ≤ 7 - length head
    → length (head ++ replicate (8 - length head - length tail) 0 ++ tail) ≡ 8
padded_eight head tail h t =
    let z = replicate {A = ℕ} (8 - length head - length tail) 0 in
    rw (length-append (head ++ z) tail, length-append head z)
      (omega (arith, length-replicate {0} {A = ℕ} (8 - length head - length tail) 0))

at_end_lem :
    (f : ℕ → IpAddr) (o : Option (ℕ × Text)) {a : IpAddr}
    → at_end f o ≡ some a
    → (r : ℕ × Text) × (o ≡ some r) × (a ≡ f r.0)
at_end_lem f none h = cc
at_end_lem f (some (x, [])) h = ((x, []), refl, ground arith)
at_end_lem f (some (x, c ∷ s)) h = cc

read_after-lt :
    (head : List ℕ) (s : Text) {r : ℕ × Text}
    → length head ≤ 7
    → All IsGroup head
    → read_after head s ≡ some r
    → r.0 < 2 ^ 128
unfolding read_after
read_after-lt head s {r} short groups e =
    let (s1, p1, e1) = bind_some (read_char b':' s) _ e in
    let (s2, p2, e2) = bind_some (read_char b':' s1) _ e1 in
    let tail = (read_groups (7 - length head) true s2).0 in
    let z = replicate {A = ℕ} (8 - length head - length tail) 0 in
    let fit = read_groups_fit (7 - length head) true s2 in
    let bound = value_of_eight-lt (head ++ z ++ tail) (padded_eight head tail short fit.0) (
      All-append IsGroup (head ++ z) tail (All-append IsGroup head z groups (All-zeros _)) fit.1) in
    ground (arith, bound)

read_v6-lt : (s : Text) {r : ℕ × Text} → read_v6 s ≡ some r → r.0 < 2 ^ 128
unfolding read_v6
read_v6-lt s {r} e =
    let g = read_groups 8 true s in
    let fit = read_groups_fit 8 true s in
    ground (arith, fit.0, value_of_eight_guarded g.0 fit.1, read_after_guarded g.0 g.2 fit.1)
  where
    value_of_eight_guarded :
        (gs : List ℕ) → All IsGroup gs → length gs ≡ 8 → value_from 0 gs < 2 ^ 128
    value_of_eight_guarded gs h e = value_of_eight-lt gs e h

    read_after_guarded :
        (gs : List ℕ) (t : Text)
        → All IsGroup gs
        → length gs ≤ 7
        → read_after gs t ≡ some r
        → r.0 < 2 ^ 128
    read_after_guarded gs t h l e = read_after-lt gs t l h e

read_ip-InRange :
    (four six : Option (ℕ × Text))
    → ((r : ℕ × Text) → four ≡ some r → r.0 < 2 ^ 32)
    → ((r : ℕ × Text) → six ≡ some r → r.0 < 2 ^ 128)
    → {a : IpAddr} → read_ip four six ≡ some a
    → InRange a
read_ip-InRange none six h4 h6 e = let (r, p, q) = at_end_lem v6 six e in rw q (h6 r p)
read_ip-InRange (some x) six h4 h6 e = let (r, p, q) = at_end_lem v4 (some x) e in rw q (h4 r p)

-- Every address that parses fits its family's width.
pub parse_ip-InRange : (s : Text) {a : IpAddr} → parse_ip s ≡ some a → InRange a
unfolding parse_ip
parse_ip-InRange s e =
    read_ip-InRange (read_v4 s) (read_v6 s) (λ r. read_v4-lt s) (λ r. read_v6-lt s) e

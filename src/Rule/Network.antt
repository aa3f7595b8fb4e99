-- ===== src/Rule/Network.antt =====
-- What an address condition means: a network of addresses of one family. The matching code and the
-- coverage code, which mask with shifts of their own, are both shown to decide membership.
use native.Mathlib.Nat.{div-eq_of_lt}
use ceasefire.Prelude.{
  ℕ, zero, suc, ◌-◌, ◌^◌, ◌≤◌, ◌<◌, ◌≡◌, refl, sym, Bool, true, false, Option, none, some, leb,
  leb→le, ◌==◌, ==_iff, Bool-cases, inl, inr, arith,
}
use ceasefire.Net.{IpAddr, v4, v6, InRange}
use ceasefire.Net.Prefix.{
  clear_low, agree, agree_iff, agree_trans, agree_shorter, agree_refl, agree_full,
}
use ceasefire.Rule.Cidr.{family_bits, shift_u32, masked_v4, masked_v6, same_network}
use ceasefire.Rule.Match.{capped_v4, in_network}

-- The address lies in the network of the first `bits` bits of `ip`.
unfoldable pub contains_ip : IpAddr → ℕ → IpAddr → Bool
contains_ip (v4 x) bits (v4 y) = agree 32 bits x y
contains_ip (v6 x) bits (v6 y) = agree 128 bits x y
contains_ip _ bits _ = false

agree_zero : (w x y : ℕ) → x < 2 ^ w → y < 2 ^ w → agree w 0 x y ≡ true
agree_zero w x y hx hy =
    let e : w - 0 ≡ w = omega arith in
    (agree_iff w 0 x y).1 (rw (e, div-eq_of_lt hx, div-eq_of_lt hy))

masked_v4-suc : (b x : ℕ) → suc b ≤ 32 → masked_v4 (suc b) x ≡ clear_low (32 - suc b) x
unfolding masked_v4
masked_v4-suc b x h = let e : shift_u32 (suc b) ≡ 32 - suc b = shift in ground (arith, e)
  where
    shift : shift_u32 (suc b) ≡ 32 - suc b
    shift = omega arith

masked_v4-agree :
    (bits x y : ℕ)
    → bits ≤ 32
    → x < 2 ^ 32
    → y < 2 ^ 32
    → (masked_v4 bits x == masked_v4 bits y) ≡ agree 32 bits x y
masked_v4-agree zero x y h hx hy = unfold masked_v4 in sym (agree_zero 32 x y hx hy)
masked_v4-agree (suc b) x y h hx hy =
    rw (masked_v4-suc b x h, masked_v4-suc b y h) (unfold agree in refl)

clear_low_none : (s x : ℕ) → s ≡ 0 → clear_low s x ≡ x
clear_low_none s x e = rw e (omega arith)

suc_not_zero : (b : ℕ) → (suc b == 0) ≡ false
suc_not_zero b = ground arith

capped_v4-suc : (b x : ℕ) → suc b ≤ 32 → capped_v4 (suc b) x ≡ clear_low (32 - suc b) x
unfolding capped_v4
capped_v4-suc b x h = elim (Bool-cases (leb 32 (suc b))) [
  | inl full ↦
      rw (suc_not_zero b, full)
        (sym (clear_low_none (32 - suc b) x (omega (arith, leb→le 32 (suc b) full))))
  | inr less ↦ rw (suc_not_zero b, less)
]

masked_v6-suc : (b x : ℕ) → suc b ≤ 128 → masked_v6 (suc b) x ≡ clear_low (128 - suc b) x
unfolding masked_v6
masked_v6-suc b x h = elim (Bool-cases (leb 128 (suc b))) [
  | inl full ↦
      rw (suc_not_zero b, full)
        (sym (clear_low_none (128 - suc b) x (omega (arith, leb→le 128 (suc b) full))))
  | inr less ↦ rw (suc_not_zero b, less)
]

capped_v4-agree :
    (bits x y : ℕ)
    → bits ≤ 32
    → x < 2 ^ 32
    → y < 2 ^ 32
    → (capped_v4 bits x == capped_v4 bits y) ≡ agree 32 bits x y
capped_v4-agree zero x y h hx hy = unfold capped_v4 in sym (agree_zero 32 x y hx hy)
capped_v4-agree (suc b) x y h hx hy =
    rw (capped_v4-suc b x h, capped_v4-suc b y h) (unfold agree in refl)

masked_v6-agree :
    (bits x y : ℕ)
    → bits ≤ 128
    → x < 2 ^ 128
    → y < 2 ^ 128
    → (masked_v6 bits x == masked_v6 bits y) ≡ agree 128 bits x y
masked_v6-agree zero x y h hx hy = unfold masked_v6 in sym (agree_zero 128 x y hx hy)
masked_v6-agree (suc b) x y h hx hy =
    rw (masked_v6-suc b x h, masked_v6-suc b y h) (unfold agree in refl)

-- On a full prefix agreement is the equality test.
agree_full_test : (w x y : ℕ) → (x == y) ≡ agree w w x y
agree_full_test w x y = elim (Bool-cases (x == y)) [
  | inl e ↦ let p : x ≡ y = (==_iff x y).0 e in rw e (sym (rw p (agree_refl w w y)))
  | inr e ↦ elim (Bool-cases (agree w w x y)) [
    | inl a ↦ let q : x ≡ y = agree_full w x y a in ground (arith, q)
    | inr a ↦ rw (e, a)
  ]
]

-- The masks of `cidr_matches` and of the coverage test decide membership.
pub same_network-contains_ip :
    (a : IpAddr) (bits : ℕ) (b : IpAddr)
    → InRange a
    → InRange b
    → bits ≤ family_bits a
    → same_network a bits b ≡ contains_ip a bits b
unfolding same_network contains_ip
same_network-contains_ip (v4 x) bits (v4 y) hx hy h = masked_v4-agree bits x y h hx hy
same_network-contains_ip (v6 x) bits (v6 y) hx hy h = masked_v6-agree bits x y h hx hy
same_network-contains_ip (v4 x) bits (v6 y) hx hy h = refl
same_network-contains_ip (v6 x) bits (v4 y) hx hy h = refl

-- The mask of a condition, the full prefix if there is none.
abbrev pub mask_or_full : Option ℕ → IpAddr → ℕ
mask_or_full none ip = family_bits ip
mask_or_full (some m) ip = m

-- So do those of the matching code.
pub in_network-contains_ip :
    (a : IpAddr) (mask : Option ℕ) (b : IpAddr)
    → InRange a
    → InRange b
    → mask_or_full mask a ≤ family_bits a
    → in_network a mask b ≡ contains_ip a (mask_or_full mask a) b
unfolding in_network contains_ip
in_network-contains_ip (v4 x) (some m) (v4 y) hx hy h = capped_v4-agree m x y h hx hy
in_network-contains_ip (v4 x) none (v4 y) hx hy h = agree_full_test 32 x y
in_network-contains_ip (v6 x) (some m) (v6 y) hx hy h = masked_v6-agree m x y h hx hy
in_network-contains_ip (v6 x) none (v6 y) hx hy h = agree_full_test 128 x y
in_network-contains_ip (v4 x) none (v6 y) hx hy h = refl
in_network-contains_ip (v4 x) (some m) (v6 y) hx hy h = refl
in_network-contains_ip (v6 x) none (v4 y) hx hy h = refl
in_network-contains_ip (v6 x) (some m) (v4 y) hx hy h = refl

-- A network that holds the base of a smaller network holds all of it.
pub contains_ip_trans :
    (a b c : IpAddr) (m n : ℕ)
    → m ≤ n
    → contains_ip a m b ≡ true
    → contains_ip b n c ≡ true
    → contains_ip a m c ≡ true
unfolding contains_ip
contains_ip_trans (v4 x) (v4 y) (v4 z) m n le h k =
    agree_trans 32 m x y z h (agree_shorter 32 m n y z le k)
contains_ip_trans (v6 x) (v6 y) (v6 z) m n le h k =
    agree_trans 128 m x y z h (agree_shorter 128 m n y z le k)
contains_ip_trans (v4 x) (v4 y) (v6 z) m n le h k = k
contains_ip_trans (v6 x) (v6 y) (v4 z) m n le h k = k
contains_ip_trans (v4 x) (v6 y) c m n le h k = cc
contains_ip_trans (v6 x) (v4 y) c m n le h k = cc

pub contains_ip_family :
    (a b : IpAddr) (m : ℕ) → contains_ip a m b ≡ true → family_bits a ≡ family_bits b
unfolding contains_ip
contains_ip_family (v4 x) (v4 y) m h = refl
contains_ip_family (v6 x) (v6 y) m h = refl
contains_ip_family (v4 x) (v6 y) m h = cc
contains_ip_family (v6 x) (v4 y) m h = cc

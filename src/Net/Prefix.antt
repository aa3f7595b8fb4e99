-- ===== src/Net/Prefix.antt =====
-- Network prefixes: the masks that the source writes `!0 << (w - bits)`, and when two addresses
-- agree under one.
use native.Mathlib.Nat.{div-div-eq-div-mul, pow-suc, eq_of_mul-eq-mul_right}
use ceasefire.Prelude.{
  ℕ, zero, suc, ◌+◌, ◌-◌, ◌*◌, ◌/◌, ◌^◌, ◌≤◌, ◌<◌, ◌≡◌, refl, sym, ap, ◌∙◌, ◌↔◌, Bool, true, arith,
  ◌==◌, ==_iff,
}

-- `x & (!0 << s)` for an `x` of any width: the low `s` bits are cleared.
abbrev pub clear_low : ℕ → ℕ → ℕ
clear_low s x = x / 2 ^ s * 2 ^ s

-- Two addresses of `w` bits agree on the first `bits` bits.
unfoldable pub agree : ℕ → ℕ → ℕ → ℕ → Bool
agree w bits x y = clear_low (w - bits) x == clear_low (w - bits) y

pow_pos : (k : ℕ) → 0 < 2 ^ k
pow_pos zero = omega arith
pow_pos (suc k) = rw (pow-suc 2 k) (omega (arith, pow_pos k))

pow_add : (a b : ℕ) → 2 ^ (a + b) ≡ 2 ^ a * 2 ^ b
pow_add a zero = let e : a + 0 ≡ a = omega arith in rw e (omega arith)
pow_add a (suc b) =
    let e : a + suc b ≡ suc (a + b) = omega arith in
    rw (e, pow-suc 2 (a + b), pow-suc 2 b, pow_add a b) (grind arith)

-- Clearing low bits loses nothing but those bits.
clear_low_inj : (s x y : ℕ) → clear_low s x ≡ clear_low s y → x / 2 ^ s ≡ y / 2 ^ s
clear_low_inj s x y h = eq_of_mul-eq-mul_right (2 ^ s) (pow_pos s) (x / 2 ^ s) (y / 2 ^ s) h

pub agree_iff : (w b x y : ℕ) → (agree w b x y ≡ true) ↔ (x / 2 ^ (w - b) ≡ y / 2 ^ (w - b))
unfolding agree
agree_iff w b x y = (
  λ h. clear_low_inj (w - b) x y ((==_iff _ _).0 h),
  λ h. (==_iff _ _).1 (ap (λ q. q * 2 ^ (w - b)) h),
)

pub agree_refl : (w b x : ℕ) → agree w b x x ≡ true
agree_refl w b x = (agree_iff w b x x).1 refl

pub agree_sym : (w b x y : ℕ) → agree w b x y ≡ true → agree w b y x ≡ true
agree_sym w b x y h = (agree_iff w b y x).1 (sym ((agree_iff w b x y).0 h))

pub agree_trans :
    (w b x y z : ℕ) → agree w b x y ≡ true → agree w b y z ≡ true → agree w b x z ≡ true
agree_trans w b x y z h k =
    (agree_iff w b x z).1 ((agree_iff w b x y).0 h ∙ (agree_iff w b y z).0 k)

div_deeper : (s d x y : ℕ) → x / 2 ^ s ≡ y / 2 ^ s → x / 2 ^ (s + d) ≡ y / 2 ^ (s + d)
div_deeper s d x y h =
    rw (pow_add s d, ← div-div-eq-div-mul x (2 ^ s) (2 ^ d), ← div-div-eq-div-mul y (2 ^ s) (2 ^ d))
      (ap (λ q. q / 2 ^ d) h)

-- Addresses that agree on a prefix agree on every shorter one.
pub agree_shorter : (w b n x y : ℕ) → b ≤ n → agree w n x y ≡ true → agree w b x y ≡ true
agree_shorter w b n x y le h =
    let e : w - b ≡ w - n + (w - b - (w - n)) = omega arith in
    (agree_iff w b x y).1
      (rw e (div_deeper (w - n) (w - b - (w - n)) x y ((agree_iff w n x y).0 h)))

-- On a full prefix agreement is equality.
pub agree_full : (w x y : ℕ) → agree w w x y ≡ true → x ≡ y
agree_full w x y h =
    let e : w - w ≡ 0 = omega arith in
    let q : x / 2 ^ (w - w) ≡ y / 2 ^ (w - w) = (agree_iff w w x y).0 h in omega (arith, rw e at q)

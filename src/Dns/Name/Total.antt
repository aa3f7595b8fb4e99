-- ===== src/Dns/Name/Total.antt =====
-- `parse_dns_name` reads inside the packet and ends; a name that it returns is printable, and the
-- offset behind it lies after the start and inside the packet.
use ceasefire.Prelude.{
  ℕ, zero, suc, ◌+◌, ◌-◌, ◌*◌, ◌%◌, ◌≤◌, ◌<◌, ◌≡◌, refl, ◌||◌, List, [], ◌∷◌, Option, none, some,
  ltb, leb, ◌==◌, length, get_elem?, Bool-cases, inl, inr, arith, not_leb→lt, unwrap_or,
}
use ceasefire.Text.{Text}
use ceasefire.Dns.Name.{
  read_label, follow, with_label, read_on, name_step, Continue, name_loop, name_fuel,
  parse_dns_name, join, finish, push_char,
}

-- An index inside a list has an element.
pub get_elem?-some {ℓ} :
    {A : Type ℓ} (xs : List A) (i : ℕ) → i < length xs → (a : A) × (get_elem? xs i ≡ some a)
get_elem?-some [] i h = elim h [ ]
get_elem?-some (x ∷ xs) zero h = (x, refl)
get_elem?-some (x ∷ xs) (suc i) h = get_elem?-some xs i (omega arith)

read_label_total :
    (packet : List ℕ) (n pos : ℕ)
    → pos + n ≤ length packet
    → (r : Option Text) × (read_label packet n pos ≡ some r)
unfolding read_label
read_label_total packet zero pos h = (some [], refl)
read_label_total packet (suc n) pos h =
    let (ch, e) = get_elem?-some packet pos (omega arith) in
    let (r, f) = read_label_total packet n (pos + 1) (omega arith) in
    elim (Bool-cases (ltb ch 32 || ltb 126 ch)) [
      | inl bad ↦ (none, rw (e, bad))
      | inr good ↦ (push_char ch r, rw (e, good, f))
    ]

-- What is left to do: the pointers that may still be followed, and the bytes ahead.
abbrev measure : List ℕ → ℕ → ℕ → ℕ
measure packet pos jumps = (5 - jumps) * (length packet + 1) + (length packet - pos)

Returns : Option (Option (Text × ℕ)) → Type 0
Returns o = (r : Option (Text × ℕ)) × (o ≡ some r)

jump_smaller :
    (size p pos j : ℕ)
    → j + 1 ≤ 5
    → (5 - (j + 1)) * (size + 1) + (size - p) < (5 - j) * (size + 1) + (size - pos)
jump_smaller size p pos j h = let e : 5 - j ≡ suc (5 - (j + 1)) = omega arith in rw e (grind arith)

follow_total :
    (packet : List ℕ) (continue : Continue) (len pos : ℕ) (after : Option ℕ) (jumps : ℕ)
    (name : Text)
    → jumps ≤ 5
    → ((p : ℕ) (a : Option ℕ) (j : ℕ) (n : Text)
        → j ≤ 5
        → measure packet p j < measure packet pos jumps
        → Returns (continue p a j n))
    → Returns (follow packet continue len pos after jumps name)
unfolding follow Returns
follow_total packet continue len pos after jumps name h go =
    elim (Bool-cases (leb (length packet) (pos + 1))) [
      | inl out ↦ (none, rw out)
      | inr inside ↦
          let (low, e) =
            get_elem?-some packet (pos + 1) (not_leb→lt (length packet) (pos + 1) inside) in
          elim (Bool-cases (ltb 5 (jumps + 1))) [
            | inl many ↦ (none, rw (inside, e, many))
            | inr few ↦
                let j_le : jumps + 1 ≤ 5 = ground arith in
                let (r, f) =
                  go (len % 64 * 256 + low) (some (unwrap_or (pos + 2) after)) (jumps + 1) name j_le
                    (jump_smaller (length packet) (len % 64 * 256 + low) pos jumps j_le) in
                (r, rw (inside, e, few) f)
          ]
    ]

with_label_total :
    (continue : Continue) (pos : ℕ) (after : Option ℕ) (jumps : ℕ) (name : Text)
    (label : Option Text)
    → ((n : Text) → Returns (continue pos after jumps n))
    → Returns (with_label continue pos after jumps name label)
unfolding with_label Returns
with_label_total continue pos after jumps name none go = (none, refl)
with_label_total continue pos after jumps name (some l) go = go (join name l)

read_on_total :
    (packet : List ℕ) (continue : Continue) (len pos : ℕ) (after : Option ℕ) (jumps : ℕ)
    (name : Text)
    → pos < length packet
    → ((n : Text) → Returns (continue (pos + 1 + len) after jumps n))
    → Returns (read_on packet continue len pos after jumps name)
unfolding read_on Returns
read_on_total packet continue len pos after jumps name h go =
    elim (Bool-cases (ltb 63 len || leb (length packet) (pos + len))) [
      | inl bad ↦ (none, rw bad)
      | inr good ↦
          let (label, e) = read_label_total packet len (pos + 1) (ground arith) in
          let (r, f) = with_label_total continue (pos + 1 + len) after jumps name label go in
          (r, rw (good, e) f)
    ]

name_step_total :
    (packet : List ℕ) (continue : Continue) (pos : ℕ) (after : Option ℕ) (jumps : ℕ) (name : Text)
    → jumps ≤ 5
    → ((p : ℕ) (a : Option ℕ) (j : ℕ) (n : Text)
        → j ≤ 5
        → measure packet p j < measure packet pos jumps
        → Returns (continue p a j n))
    → Returns (name_step packet continue pos after jumps name)
unfolding name_step Returns
name_step_total packet continue pos after jumps name h go =
    elim (Bool-cases (leb (length packet) pos)) [
      | inl out ↦ (none, rw out)
      | inr inside ↦
          let lt : pos < length packet = not_leb→lt (length packet) pos inside in
          let (len, e) = get_elem?-some packet pos lt in
          elim (Bool-cases (leb 192 len)) [
            | inl pointer ↦
                let (r, f) = follow_total packet continue len pos after jumps name h go in
                (r, rw (inside, e, pointer) f)
            | inr plain ↦ elim (Bool-cases (len == 0)) [
              | inl end ↦ (finish name (unwrap_or (pos + 1) after), rw (inside, e, plain, end))
              | inr more ↦
                  let (r, f) =
                    read_on_total packet continue len pos after jumps name lt
                      (λ n. go (pos + 1 + len) after jumps n h (omega arith)) in
                  (r, rw (inside, e, plain, more) f)
            ]
          ]
    ]

name_loop_total :
    (fuel : ℕ) (packet : List ℕ) (pos : ℕ) (after : Option ℕ) (jumps : ℕ) (name : Text)
    → jumps ≤ 5
    → measure packet pos jumps < fuel
    → Returns (name_loop fuel packet pos after jumps name)
unfolding name_loop
name_loop_total zero packet pos after jumps name h m = absurd (omega arith)
name_loop_total (suc fuel) packet pos after jumps name h m =
    name_step_total packet (name_loop fuel packet) pos after jumps name h
      λ p a j n hj hm. name_loop_total fuel packet p a j n hj (omega arith)

-- On every packet and at every offset the parser reads inside the packet and ends: it returns a name
-- or refuses it.
pub parse_dns_name_total :
    (packet : List ℕ) (offset : ℕ)
    → (r : Option (Text × ℕ)) × (parse_dns_name packet offset ≡ some r)
unfolding parse_dns_name Returns
parse_dns_name_total packet offset =
    name_loop_total (name_fuel packet) packet offset none 0 [] (omega arith) (omega arith)

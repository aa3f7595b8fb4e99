-- ===== src/Driver/Received/Layout.antt =====
-- The bytes of an event, field behind field, are read back as the event.
use ceasefire.Prelude.{
  ℕ, zero, suc, ◌+◌, ◌*◌, ◌/◌, ◌^◌, ◌<◌, ◌≤◌, ◌≡◌, refl, sym, ap, ◌∙◌, false, List, [], ◌∷◌, ◌++◌,
  ok, err, ltb, if◌then◌else◌, length, take, drop, All, length-append, length-take, length-drop,
  length-replicate, replicate, ◌-◌, arith, min, lt→ltb, Bool-cases, inl, inr,
}
use native.Mathlib.Nat.{pow-suc}
use ceasefire.Errors.{driver, buffer_too_small, dns_buffer_too_small}
use ceasefire.Driver.Converter.{le_bytes}
use ceasefire.Driver.Received.{
  DriverEvent, DriverDnsEvent, from_le, wide, read_event, event_size, event_from_bytes,
  dns_event_from_bytes, dns_event_size,
}

length-le_bytes : (n v : ℕ) → length (le_bytes n v) ≡ n
unfolding le_bytes
length-le_bytes zero v = refl
length-le_bytes (suc n) v = ap suc (length-le_bytes n (v / 256))

from_le-le_bytes : (n v : ℕ) → v < 256 ^ n → from_le (le_bytes n v) ≡ v
unfolding le_bytes from_le
from_le-le_bytes zero v h = omega (arith, h)
from_le-le_bytes (suc n) v h =
    let below : v / 256 < 256 ^ n = omega (arith, pow-suc 256 n) in
    omega (arith, from_le-le_bytes n (v / 256) below)

pub take_front : (xs ys : List ℕ) (n : ℕ) → length xs ≡ n → take n (xs ++ ys) ≡ xs
take_front xs ys n h = ap (λ m. take m (xs ++ ys)) (sym h) ∙ go xs
  where
    go : (l : List ℕ) → take (length l) (l ++ ys) ≡ l
    go [] = refl
    go (x ∷ l) = ap (λ r. x ∷ r) (go l)

pub drop_front : (xs ys : List ℕ) (n : ℕ) → length xs ≡ n → drop n (xs ++ ys) ≡ ys
drop_front xs ys n h = ap (λ m. drop m (xs ++ ys)) (sym h) ∙ go xs
  where
    go : (l : List ℕ) → drop (length l) (l ++ ys) ≡ ys
    go [] = refl
    go (x ∷ l) = go l

take_le : (n v : ℕ) (ys : List ℕ) → take n (le_bytes n v ++ ys) ≡ le_bytes n v
take_le n v ys = take_front (le_bytes n v) ys n (length-le_bytes n v)

drop_le : (n v : ℕ) (ys : List ℕ) → drop n (le_bytes n v ++ ys) ≡ ys
drop_le n v ys = drop_front (le_bytes n v) ys n (length-le_bytes n v)

-- 16-bit numbers as bytes.
abbrev pub wide_bytes : List ℕ → List ℕ
wide_bytes [] = []
wide_bytes (c ∷ cs) = le_bytes 2 c ++ wide_bytes cs

length-wide_bytes : (cs : List ℕ) → length (wide_bytes cs) ≡ 2 * length cs
length-wide_bytes [] = refl
length-wide_bytes (c ∷ cs) =
    omega (
      arith,
      length-append (le_bytes 2 c) (wide_bytes cs),
      length-le_bytes 2 c,
      length-wide_bytes cs,
    )

wide-wide_bytes : (cs : List ℕ) → All (λ c. c < 256 ^ 2) cs → wide (length cs) (wide_bytes cs) ≡ cs
unfolding wide
wide-wide_bytes [] h = refl
wide-wide_bytes (c ∷ cs) (h, hs) =
    rw
      (
        take_le 2 c (wide_bytes cs),
        drop_le 2 c (wide_bytes cs),
        from_le-le_bytes 2 c h,
        wide-wide_bytes cs hs,
      )
      refl

-- The event of the C header, packed.
abbrev pub event_bytes : DriverEvent → List ℕ
event_bytes e =
    le_bytes 8 e.timestamp
    ++ (le_bytes 4 e.process_id
        ++ (le_bytes 4 e.event_type
            ++ (wide_bytes e.process_path
                ++ (le_bytes 4 e.protocol
                    ++ (e.local_addr
                        ++ (e.remote_addr
                            ++ (le_bytes 2 e.local_port
                                ++ (le_bytes 2 e.remote_port
                                    ++ (le_bytes 1 e.allowed
                                        ++ (e.padding3
                                            ++ (le_bytes 4 e.matched_rule_id
                                                ++ (le_bytes 8 e.bytes_sent
                                                    ++ (le_bytes 8 e.bytes_received
                                                        ++ (le_bytes 4 e.address_family
                                                            ++ le_bytes 4 e.direction))))))))))))))

-- Each field is within its width.
abbrev pub Fits : DriverEvent → Type 0
Fits e =
    (e.timestamp < 256 ^ 8)
    × (e.process_id < 256 ^ 4)
    × (e.event_type < 256 ^ 4)
    × (length e.process_path ≡ 260)
    × All (λ c. c < 256 ^ 2) e.process_path
    × (e.protocol < 256 ^ 4)
    × (length e.local_addr ≡ 16)
    × (length e.remote_addr ≡ 16)
    × (e.local_port < 256 ^ 2)
    × (e.remote_port < 256 ^ 2)
    × (e.allowed < 256 ^ 1)
    × (length e.padding3 ≡ 1)
    × (e.matched_rule_id < 256 ^ 4)
    × (e.bytes_sent < 256 ^ 8)
    × (e.bytes_received < 256 ^ 8)
    × (e.address_family < 256 ^ 4)
    × (e.direction < 256 ^ 4)

take-length : (l : List ℕ) → take (length l) l ≡ l
take-length [] = refl
take-length (x ∷ l) = ap (λ r. x ∷ r) (take-length l)

take_whole : (n v : ℕ) → take n (le_bytes n v) ≡ le_bytes n v
take_whole n v =
    ap (λ m. take m (le_bytes n v)) (sym (length-le_bytes n v)) ∙ take-length (le_bytes n v)

read_event-event_bytes : (e : DriverEvent) → Fits e → read_event (event_bytes e) ≡ e
unfolding read_event
read_event-event_bytes e
      (ts, pid, kind, path, chars, proto, la, ra, lp, rp, al, pd, rule, sent, recv, fam, dir) =
    let wide_length : length (wide_bytes e.process_path) ≡ 520 =
      omega (arith, length-wide_bytes e.process_path, path) in
    let chars_back : wide 260 (wide_bytes e.process_path) ≡ e.process_path =
      ap (λ n. wide n (wide_bytes e.process_path)) (sym path)
      ∙ wide-wide_bytes e.process_path chars in
    simp (
      take_le,
      drop_le,
      take_whole,
      λ (ys : List ℕ). take_front (wide_bytes e.process_path) ys 520 wide_length,
      λ (ys : List ℕ). drop_front (wide_bytes e.process_path) ys 520 wide_length,
      λ (ys : List ℕ). take_front e.local_addr ys 16 la,
      λ (ys : List ℕ). drop_front e.local_addr ys 16 la,
      λ (ys : List ℕ). take_front e.remote_addr ys 16 ra,
      λ (ys : List ℕ). drop_front e.remote_addr ys 16 ra,
      λ (ys : List ℕ). take_front e.padding3 ys 1 pd,
      λ (ys : List ℕ). drop_front e.padding3 ys 1 pd,
      chars_back,
      from_le-le_bytes 8 e.timestamp ts,
      from_le-le_bytes 4 e.process_id pid,
      from_le-le_bytes 4 e.event_type kind,
      from_le-le_bytes 4 e.protocol proto,
      from_le-le_bytes 2 e.local_port lp,
      from_le-le_bytes 2 e.remote_port rp,
      from_le-le_bytes 1 e.allowed al,
      from_le-le_bytes 4 e.matched_rule_id rule,
      from_le-le_bytes 8 e.bytes_sent sent,
      from_le-le_bytes 8 e.bytes_received recv,
      from_le-le_bytes 4 e.address_family fam,
      from_le-le_bytes 4 e.direction dir,
    )

length-event_bytes : (e : DriverEvent) → Fits e → length (event_bytes e) ≡ 606
length-event_bytes e
      (ts, pid, kind, path, chars, proto, la, ra, lp, rp, al, pd, rule, sent, recv, fam, dir) =
    let wide_length : length (wide_bytes e.process_path) ≡ 520 =
      omega (arith, length-wide_bytes e.process_path, path) in
    let lengths : length (event_bytes e)
        ≡ 8
          + (4
              + (4
                  + (length (wide_bytes e.process_path)
                      + (4
                          + (length e.local_addr
                              + (length e.remote_addr
                                  + (2
                                      + (2
                                          + (1
                                              + (length e.padding3
                                                  + (4 + (8 + (8 + (4 + 4)))))))))))))) =
      simp (length-append, length-le_bytes) in
    omega (arith, lengths, wide_length, la, ra, pd)

-- An event whose fields are within their widths is read back from its bytes; fewer bytes than an
-- event has are refused.
pub event_from_bytes-event_bytes :
    (e : DriverEvent) (short : List ℕ)
    → Fits e
    → length short < event_size
    → (event_from_bytes (event_bytes e) ≡ ok e)
      × (event_from_bytes short ≡ err (driver buffer_too_small))
unfolding event_from_bytes
event_from_bytes-event_bytes e short fits few =
    let enough : ltb (length (event_bytes e)) event_size ≡ false =
      ap (λ n. ltb n event_size) (length-event_bytes e fits) in
    (
      rw enough (ap ok (read_event-event_bytes e fits)),
      rw (lt→ltb (length short) event_size few) refl,
    )

-- What a DNS event that was read claims as its length.
payload_length :
    (bytes : List ℕ) (n : ℕ)
    → 34 + 512 ≤ length bytes
    → n ≤ 512
    → length (take n (drop 34 bytes) ++ replicate (512 - n) 0) ≡ 512
payload_length bytes n enough small =
    let z : ℕ = 0 in
    omega (
      arith,
      length-append (take n (drop 34 bytes)) (replicate (512 - n) z),
      length-take n (drop 34 bytes),
      length-drop 34 bytes,
      length-replicate (512 - n) z,
    )

-- A buffer of at least the size of a DNS event is read, whatever its bytes are, and gives 512 bytes of
-- payload even where the length in it is larger; a smaller buffer is refused.
pub dns_event_from_bytes_total :
    (bytes : List ℕ)
    → if ltb (length bytes) dns_event_size
      then dns_event_from_bytes bytes ≡ err (driver dns_buffer_too_small)
      else (e : DriverDnsEvent) × (dns_event_from_bytes bytes ≡ ok e) × (length e.data_bytes ≡ 512)
unfolding dns_event_from_bytes
dns_event_from_bytes_total bytes = elim (Bool-cases (ltb (length bytes) dns_event_size)) [
  | inl h ↦ rw h refl
  | inr h ↦
      let n = min (from_le (take 2 (drop 32 bytes))) 512 in
      rw h (_, refl, payload_length bytes n (ground arith) (omega arith))
]

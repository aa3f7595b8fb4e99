-- ===== src/Dns/Response/Total.antt =====
-- `parse_dns_response` reads inside the packet and ends, on every packet.
use ceasefire.Prelude.{
  ℕ, zero, suc, ◌+◌, ◌-◌, ◌*◌, ◌≤◌, ◌<◌, ◌≡◌, refl, ◌&&◌, ◌||◌, List, [], ◌∷◌, ◌++◌, Option, none,
  some, ltb, leb, ◌==◌, length, Bool-cases, inl, inr, arith, not_leb→lt,
}
use ceasefire.Text.{Text}
use ceasefire.Net.{v4, v6}
use ceasefire.Dns.Name.Total.{get_elem?-some, parse_dns_name_total}
use ceasefire.Dns.Response.{
  Answer, read_be, skip_question, answer_of, record_at, named_record, go_on, answers,
  after_question, parse_dns_response,
}

read_be_total :
    (packet : List ℕ) (n pos acc : ℕ)
    → pos + n ≤ length packet
    → (v : ℕ) × (read_be packet n pos acc ≡ some v)
unfolding read_be
read_be_total packet zero pos acc h = (acc, refl)
read_be_total packet (suc n) pos acc h =
    let (b, e) = get_elem?-some packet pos (omega arith) in
    let (v, f) = read_be_total packet n (pos + 1) (acc * 256 + b) (omega arith) in (v, rw e f)

skip_question_total :
    (fuel : ℕ) (packet : List ℕ) (offset : ℕ)
    → length packet - offset < fuel
    → (r : Option ℕ) × (skip_question fuel packet offset ≡ some r)
unfolding skip_question
skip_question_total zero packet offset h = absurd (omega arith)
skip_question_total (suc fuel) packet offset h = elim (Bool-cases (leb (length packet) offset)) [
  | inl done ↦ (some offset, rw done)
  | inr more ↦
      let lt : offset < length packet = not_leb→lt (length packet) offset more in
      let (len, e) = get_elem?-some packet offset lt in
      let (r, f) = skip_question_total fuel packet (offset + len + 1) (omega arith) in
      elim (Bool-cases (len == 0)) [
        | inl end ↦ (some (offset + 1), rw (more, e, end))
        | inr label ↦ elim (Bool-cases (ltb 63 len || leb (length packet) (offset + len))) [
          | inl bad ↦ (none, rw (more, e, label, bad))
          | inr good ↦ (r, rw (more, e, label, good) f)
        ]
      ]
]

answer_of_total :
    (packet : List ℕ) (domain : Text) (rtype rdlength ttl offset : ℕ)
    → offset + rdlength ≤ length packet
    → (found : List Answer) × (answer_of packet domain rtype rdlength ttl offset ≡ some found)
unfolding answer_of
answer_of_total packet domain rtype rdlength ttl offset h =
    elim (Bool-cases (rtype == 1 && rdlength == 4)) [
      | inl a ↦
          let (ip, e) = read_be_total packet 4 offset 0 (ground arith) in
          ((domain, v4 ip, ttl) ∷ [], rw (a, e))
      | inr not_a ↦ elim (Bool-cases (rtype == 28 && rdlength == 16)) [
        | inl aaaa ↦
            let (ip, e) = read_be_total packet 16 offset 0 (ground arith) in
            ((domain, v6 ip, ttl) ∷ [], rw (not_a, aaaa, e))
        | inr other ↦ ([], rw (not_a, other))
      ]
    ]

record_at_total :
    (packet : List ℕ) (domain : Text) (offset : ℕ)
    → (r : List Answer × Option ℕ) × (record_at packet domain offset ≡ some r)
unfolding record_at
record_at_total packet domain offset = elim (Bool-cases (ltb (length packet) (offset + 10))) [
  | inl short ↦ (([], none), rw short)
  | inr room ↦
      let fits : offset + 10 ≤ length packet = ground arith in
      let (rtype, e1) = read_be_total packet 2 offset 0 (omega arith) in
      let (rclass, e2) = read_be_total packet 2 (offset + 2) 0 (omega arith) in
      let (ttl, e3) = read_be_total packet 4 (offset + 4) 0 (omega arith) in
      let (rdlength, e4) = read_be_total packet 2 (offset + 8) 0 (omega arith) in
      elim (Bool-cases (ltb (length packet) (offset + 10 + rdlength))) [
        | inl past ↦ (([], none), rw (room, e1, e2, e3, e4, past))
        | inr inside ↦
            let (found, f) =
              answer_of_total packet domain rtype rdlength ttl (offset + 10) (ground arith) in
            ((found, some (offset + 10 + rdlength)), rw (room, e1, e2, e3, e4, inside, f))
      ]
]

named_record_total :
    (packet : List ℕ) (name : Option (Text × ℕ))
    → (r : List Answer × Option ℕ) × (named_record packet name ≡ some r)
unfolding named_record
named_record_total packet none = (([], none), refl)
named_record_total packet (some (domain, offset)) = record_at_total packet domain offset

go_on_total :
    (continue : ℕ → Option (List Answer))
    → ((offset : ℕ) → (rs : List Answer) × (continue offset ≡ some rs))
    → (r : List Answer × Option ℕ) → (rs : List Answer) × (go_on continue r ≡ some rs)
unfolding go_on
go_on_total continue h (found, none) = (found, refl)
go_on_total continue h (found, some offset) = let (rest, e) = h offset in (found ++ rest, rw e)

answers_total :
    (n : ℕ) (packet : List ℕ) (offset : ℕ)
    → (rs : List Answer) × (answers n packet offset ≡ some rs)
unfolding answers
answers_total zero packet offset = ([], refl)
answers_total (suc n) packet offset = elim (Bool-cases (leb (length packet) offset)) [
  | inl done ↦ ([], rw done)
  | inr more ↦
      let (name, e) = parse_dns_name_total packet offset in
      let (r, f) = named_record_total packet name in
      let (rs, g) = go_on_total (answers n packet) (λ o. answers_total n packet o) r in
      (rs, rw (more, e, f) g)
]

after_question_total :
    (count : ℕ) (packet : List ℕ) (question : Option ℕ)
    → (rs : List Answer) × (after_question count packet question ≡ some rs)
unfolding after_question
after_question_total count packet none = ([], refl)
after_question_total count packet (some offset) = answers_total count packet (offset + 4)

-- On every packet, `parse_dns_response` returns a list of answers: it never reads an octet outside
-- the packet, and its loops over labels, names and records all end.
pub parse_dns_response_total :
    (packet : List ℕ) → (rs : List Answer) × (parse_dns_response packet ≡ some rs)
unfolding parse_dns_response
parse_dns_response_total packet = elim (Bool-cases (ltb (length packet) 12)) [
  | inl short ↦ ([], rw short)
  | inr room ↦
      let fits : 12 ≤ length packet = ground arith in
      let (flags, e) = get_elem?-some packet 2 (omega arith) in
      elim (Bool-cases (ltb flags 0x80)) [
        | inl query ↦ ([], rw (room, e, query))
        | inr answer ↦
            let (count, f) = read_be_total packet 2 6 0 (omega arith) in
            elim (Bool-cases (count == 0)) [
              | inl zero_count ↦ ([], rw (room, e, answer, f, zero_count))
              | inr some_count ↦
                  let (q, g) = skip_question_total (length packet) packet 12 (omega arith) in
                  let (rs, k) = after_question_total count packet q in
                  (rs, rw (room, e, answer, f, some_count, g) k)
            ]
      ]
]

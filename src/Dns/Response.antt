-- ===== src/Dns/Response.antt =====
-- `parse_dns_response` of service/src/dns_cache.rs. A read outside the packet, on which Rust panics,
-- and running out of fuel are `none`.
pub mod Total
use ceasefire.Prelude.{
  ℕ, zero, suc, ◌+◌, ◌*◌, ◌≡◌, refl, Bool, ◌&&◌, ◌||◌, List, [], ◌∷◌, ◌++◌, Option, none, some, ltb,
  leb, ◌==◌, if◌then◌else◌, length, get_elem?, replicate,
}
use ceasefire.Prelude.Maybe.{◌>>=◌, ◌>>◌}
use ceasefire.Text.{Text, codes}
use ceasefire.Net.{IpAddr, v4, v6}
use ceasefire.Dns.Name.{parse_dns_name, example_com, name_fuel}

abbrev pub Answer : Type 0
Answer = Text × IpAddr × ℕ

-- `u16::from_be_bytes`, `u32::from_be_bytes` and the addresses from their octets.
read_be : List ℕ → ℕ → ℕ → ℕ → Option ℕ
read_be packet zero pos acc = some acc
read_be packet (suc n) pos acc = do
  b ← get_elem? packet pos
  read_be packet n (pos + 1) (acc * 256 + b)

-- The loop over the labels of the question; `some none` is a malformed one.
skip_question : ℕ → List ℕ → ℕ → Option (Option ℕ)
skip_question zero packet offset = none
skip_question (suc fuel) packet offset =
    if leb (length packet) offset
    then some (some offset)
    else get_elem? packet offset >>= λ len.
        let rest = skip_question fuel packet (offset + len + 1) in
        if len == 0
        then some (some (offset + 1))
        else if ltb 63 len || leb (length packet) (offset + len)
        then some none
        else rest

-- An A record or an AAAA record.
answer_of : List ℕ → Text → ℕ → ℕ → ℕ → ℕ → Option (List Answer)
answer_of packet domain rtype rdlength ttl offset =
    if rtype == 1 && rdlength == 4
    then (do ip ← read_be packet 4 offset 0; some ((domain, v4 ip, ttl) ∷ []))
    else if rtype == 28 && rdlength == 16
    then (do ip ← read_be packet 16 offset 0; some ((domain, v6 ip, ttl) ∷ []))
    else some []

-- One record behind its name: its answers, and the offset behind it if the loop goes on.
record_at : List ℕ → Text → ℕ → Option (List Answer × Option ℕ)
record_at packet domain offset = if ltb (length packet) (offset + 10) then some ([], none) else do
  rtype ← read_be packet 2 offset 0
  rclass ← read_be packet 2 (offset + 2) 0
  ttl ← read_be packet 4 (offset + 4) 0
  rdlength ← read_be packet 2 (offset + 8) 0
  (if ltb (length packet) (offset + 10 + rdlength)
      then some ([], none)
      else answer_of packet domain rtype rdlength ttl (offset + 10) >>= λ found.
          some (found, some (offset + 10 + rdlength)))

named_record : List ℕ → Option (Text × ℕ) → Option (List Answer × Option ℕ)
named_record packet none = some ([], none)
named_record packet (some (domain, offset)) = record_at packet domain offset

go_on : (ℕ → Option (List Answer)) → List Answer × Option ℕ → Option (List Answer)
go_on continue (found, none) = some found
go_on continue (found, some offset) = do rest ← continue offset; some (found ++ rest)

answers : ℕ → List ℕ → ℕ → Option (List Answer)
answers zero packet offset = some []
answers (suc n) packet offset = if leb (length packet) offset then some [] else do
  name ← parse_dns_name packet offset
  r ← named_record packet name
  go_on (answers n packet) r

after_question : ℕ → List ℕ → Option ℕ → Option (List Answer)
after_question count packet none = some []
after_question count packet (some offset) = answers count packet (offset + 4)

unfoldable pub parse_dns_response : List ℕ → Option (List Answer)
unfolding read_be skip_question answer_of record_at named_record go_on answers after_question
parse_dns_response packet =
    if ltb (length packet) 12
    then some []
    else get_elem? packet 2 >>= λ flags.
        if ltb flags 0x80
        then some []
        else read_be packet 2 6 0 >>= λ count.
            if count == 0
            then some []
            else skip_question (length packet) packet 12 >>= λ question.
                after_question count packet question

abbrev pub response : List ℕ
response =
    0 ∷ 1 ∷ 0x81 ∷ 0x80 ∷ 0 ∷ 1 ∷ 0 ∷ 1 ∷ replicate 4 0
    ++ example_com
    ++ (0 ∷ 1 ∷ 0 ∷ 1 ∷ 0xc0 ∷ 12 ∷ 0 ∷ 1 ∷ 0 ∷ 1 ∷ 0 ∷ 0 ∷ 1 ∷ 44 ∷ 0 ∷ 4 ∷ 93 ∷ 184 ∷ 216 ∷ 34
        ∷ [])

response_test : parse_dns_response response ≡ some ((codes "example.com", v4 0x5db8_d822, 300) ∷ [])
unfolding parse_dns_response parse_dns_name
response_test = refl

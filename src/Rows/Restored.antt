-- ===== src/Rows/Restored.antt =====
-- A rule is read back from the row that it is stored in.
use ceasefire.Prelude.{
  ℕ, ◌%◌, ◌^◌, ◌<◌, ◌≡◌, refl, ap, ◌∙◌, Bool, true, false, not, Option, none, some, if◌then◌else◌,
  ◌==◌, arith,
}
use ceasefire.Text.{Text}
use ceasefire.Models.{RuleAction, Direction, Protocol, NetworkZone, Rule, PortRange, single, range}
use ceasefire.Rows.{
  Json, Codecs, on_some, parse_json, port_columns, port_of_columns, inserted_row, rule_from_row,
}

-- What is written as JSON is read back.
abbrev pub ReadsBack : {A : Type 0} → Json A → Type 0
ReadsBack {A} j = (a : A) → j.read (j.write a) ≡ some a

-- The ports are of 16 bits, the masks of 8.
abbrev pub PortFits : Option PortRange → Type 0
PortFits none = Unit {0}
PortFits (some (single p)) = p < 65536
PortFits (some (range start end)) = (start < 65536) × (end < 65536)

abbrev pub MaskFits : Option ℕ → Type 0
MaskFits none = Unit {0}
MaskFits (some m) = m < 256

parsed : {A : Type 0} (d : A) (j : Json A) → ReadsBack j → (a : A) → parse_json d j (j.write a) ≡ a
unfolding parse_json
parsed d j back a = rw (parse_json, back a) refl

optional :
    {A : Type 0} (d : A) (j : Json A)
    → ReadsBack j
    → (o : Option A) → on_some (parse_json d j) (on_some (λ a. j.write a) o) ≡ o
optional d j back none = refl
optional d j back (some a) = ap some (parsed d j back a)

port_back :
    (o : Option PortRange)
    → PortFits o
    → port_of_columns ((port_columns o).0) ((port_columns o).1) ≡ o
unfolding port_of_columns port_columns
port_back none h = refl
port_back (some (single p)) h = ap (λ x. some (single x)) (omega (arith, h))
port_back (some (range start end)) (hs, he) =
    let s : start % 65536 ≡ start = omega (arith, hs) in
    let e : end % 65536 ≡ end = omega (arith, he) in
    ap (λ x. some (range x (end % 65536))) s ∙ ap (λ x. some (range start x)) e

mask_back : (o : Option ℕ) → MaskFits o → on_some (λ m. m % 2 ^ 8) o ≡ o
mask_back none h = refl
mask_back (some m) h = ap some (omega (arith, h))

flag_back : (x : Bool) → not ((if x then 1 else 0) == 0) ≡ x
flag_back true = refl
flag_back false = refl

-- Where serde reads back what it has written, a rule whose ports and masks are within their widths is
-- read from the row that its creation inserts as itself, with the row's id and times.
pub rule_from_row-inserted_row :
    (j : Codecs) (now : Text) (id : ℕ) (r : Rule)
    → ReadsBack j.action
    → ReadsBack j.direction
    → ReadsBack j.protocol
    → ReadsBack j.network_zone
    → PortFits r.remote_port
    → PortFits r.local_port
    → MaskFits r.remote_addr_mask
    → MaskFits r.local_addr_mask
    → rule_from_row j (inserted_row j now id r)
      ≡ record r { id = some id; created_at = some now; updated_at = some now }
unfolding rule_from_row inserted_row
rule_from_row-inserted_row j now id r action direction protocol zone rp lp rm lm = simp (
  parsed RuleAction.allow j.action action r.action,
  parsed Direction.both j.direction direction r.direction,
  optional Protocol.any j.protocol protocol r.protocol,
  optional NetworkZone.internet j.network_zone zone r.network_zone,
  port_back r.remote_port rp,
  port_back r.local_port lp,
  mask_back r.remote_addr_mask rm,
  mask_back r.local_addr_mask lm,
  flag_back r.enabled,
)

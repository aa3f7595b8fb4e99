-- ===== src/Driver/Path.antt =====
-- `convert_nt_path_to_dos` of service/src/driver/converter.rs. What Windows says of its drives, and the
-- text of a number, are parameters.
pub mod Round
use ceasefire.Prelude.{
  ℕ, zero, suc, ◌+◌, ◌-◌, ◌*◌, ◌/◌, ◌%◌, ◌^◌, ◌≡◌, refl, Bool, true, false, not, ◌&&◌, ◌||◌, List,
  [], ◌∷◌, ◌++◌, Option, none, some, Result, ok, err, ltb, leb, ◌==◌, if◌then◌else◌, length, take,
  drop, replicate, min, same, list_eq, nat_eq,
}
use ceasefire.Text.{Text, codes, to_ascii_lowercase, starts_with, strip_prefix}
use ceasefire.Text.Number.{parse_uint}
use ceasefire.Errors.{ServiceError, driver, buffer_too_small, dns_buffer_too_small}
use ceasefire.Models.{
  NetworkEvent, EventAction, Direction, inbound, outbound, Protocol, tcp, udp, icmp, icmpv6,
}

colon_second : Text → Bool
colon_second (c ∷ d ∷ rest) = d == b':'
colon_second _ = false

-- `drives` are the drives that exist and the devices that Windows names for each.
head_matches : Text → Text → Bool
head_matches path device =
    not (length device == 0)
    && same (to_ascii_lowercase (take (length device) path)) (to_ascii_lowercase device)

query_device : Text → ℕ → List Text → Option Text → Option Text
unfolding head_matches
query_device path letter [] rest = rest
query_device path letter (device ∷ devices) rest =
    let later = query_device path letter devices rest in
    if head_matches path device then some (letter ∷ b':' ∷ drop (length device) path) else later

unfoldable pub query_dos_device_path : List (ℕ × List Text) → Text → Option Text
unfolding query_device
query_dos_device_path [] path = none
query_dos_device_path ((letter, devices) ∷ drives) path =
    query_device path letter devices (query_dos_device_path drives path)

abbrev volume_prefix : Text
volume_prefix = codes "\\device\\harddiskvolume"

before_backslash : Text → Text
before_backslash [] = []
before_backslash (c ∷ s) = if c == b'\\' then [] else c ∷ before_backslash s

extract_volume_number : Text → Option ℕ
unfolding before_backslash
extract_volume_number lower_nt_path = elim (strip_prefix volume_prefix lower_nt_path) [
  | none ↦ none
  | some rest ↦ parse_uint (2 ^ 32 - 1) (before_backslash rest)
]

-- The arithmetic wraps around, as in a release build.
drive_letter : ℕ → ℕ
drive_letter volume_num =
    if volume_num == 1 || volume_num == 3
    then b'C'
    else if volume_num == 2 || volume_num == 4
    then b'D'
    else if volume_num == 5
    then b'E'
    else if volume_num == 6
    then b'F'
    else ((volume_num + 2 ^ 32 - 1) % 2 ^ 32 % 256 + b'C') % 256

module _ (decimal : ℕ → Text) where
  guessed : Text → Text → Option ℕ → Text
  unfolding drive_letter
  guessed nt_path low none = nt_path
  guessed nt_path low (some volume_num) =
      elim (strip_prefix (volume_prefix ++ decimal volume_num) low) [
        | none ↦ nt_path
        | some remaining ↦ drive_letter volume_num ∷ b':' ∷ remaining
      ]

  unfoldable pub convert_nt_path_to_dos : List (ℕ × List Text) → Text → Option Text
  unfolding guessed extract_volume_number colon_second
  convert_nt_path_to_dos drives nt_path =
      let low = to_ascii_lowercase nt_path in
      if colon_second nt_path
      then some nt_path
      else if not (starts_with (codes "\\device\\") low) && not (starts_with (codes "\\??\\") low)
      then some nt_path
      else elim (query_dos_device_path drives nt_path) [
        | some dos_path ↦ some dos_path
        | none ↦ some (guessed nt_path low (extract_volume_number low))
      ]

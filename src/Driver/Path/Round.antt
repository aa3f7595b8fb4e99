-- ===== src/Driver/Path/Round.antt =====
-- Between the paths of the rules and those of the events.
use ceasefire.Prelude.{
  ℕ, suc, arith, ◌&&◌, ◌≡◌, refl, ap, ◌∙◌, Bool, true, false, List, [], ◌∷◌, ◌++◌, Option, none,
  some, length, Bool-cases, inl, inr, same_refl, list_eq, nat_eq, ◌==◌, not, ◌&&◌,
}
use ceasefire.Prelude.Table.{some_not_none}
use ceasefire.Text.{Text, codes, to_ascii_lowercase, starts_with, strip_prefix}
use ceasefire.Driver.Converter.{convert_dos_path_to_nt, is_ascii_alphabetic}
use ceasefire.Driver.Path.{
  head_matches, query_device, query_dos_device_path, convert_nt_path_to_dos,
}
use ceasefire.Driver.Received.Layout.{take_front, drop_front}

Drives : Type 0
Drives = List (ℕ × List Text)

none_before :
    (path : Text) (letter : ℕ) (devices : List Text) (o p : Option Text)
    → query_device path letter devices o ≡ none
    → (o ≡ none) × (query_device path letter devices p ≡ p)
unfolding query_device
none_before path letter [] o p h = (h, refl)
none_before path letter (d ∷ ds) o p h = elim (Bool-cases (head_matches path d)) [
  | inl m ↦ absurd (some_not_none (rw m at h))
  | inr m ↦ let (empty, passed) = none_before path letter ds o p (rw m at h) in (empty, rw m passed)
]

behind_none :
    (earlier later : List (ℕ × List Text)) (path : Text)
    → query_dos_device_path earlier path ≡ none
    → query_dos_device_path (earlier ++ later) path ≡ query_dos_device_path later path
unfolding query_dos_device_path
behind_none [] later path h = refl
behind_none ((letter, devices) ∷ earlier) later path h =
    let (empty, passed) =
      none_before path letter devices (query_dos_device_path earlier path)
        (query_dos_device_path (earlier ++ later) path) h in
    passed ∙ behind_none earlier later path empty

-- The names of the devices of Windows.
abbrev pub device_named : Text → Text
device_named name = codes "\\Device\\" ++ name

own_head : (device rest : Text) → head_matches (device ++ rest) device ≡ not (length device == 0)
unfolding head_matches
own_head device rest =
    rw (take_front device rest (length device) refl, same_refl (to_ascii_lowercase device))
      (right (not (length device == 0)))
  where
    right : (x : Bool) → (x && true) ≡ x
    right true = refl
    right false = refl

named : (n : ℕ) → not (suc (suc (suc (suc (suc (suc (suc (suc n))))))) == 0) ≡ true
named n = ground arith

-- A path on a drive becomes a path of the drive's device for the driver, and an event with that
-- path is reported under the path of the drive again, where Windows names the device for the drive and no
-- drive that is asked earlier matches.
pub convert_nt_path_to_dos-convert_dos_path_to_nt :
    (decimal : ℕ → Text) (query : Text → Option Text) (earlier later : List (ℕ × List Text))
    (letter : ℕ) (devices : List Text) (name rest : Text)
    → is_ascii_alphabetic letter ≡ true
    → query (letter ∷ b':' ∷ []) ≡ some (device_named name)
    → query_dos_device_path earlier (device_named name ++ rest) ≡ none
    → (convert_dos_path_to_nt query (letter ∷ b':' ∷ rest) ≡ some (device_named name ++ rest))
      × (convert_nt_path_to_dos decimal
            (earlier ++ (letter, device_named name ∷ devices) ∷ later)
            (device_named name ++ rest)
          ≡ some (letter ∷ b':' ∷ rest))
unfolding convert_dos_path_to_nt convert_nt_path_to_dos query_dos_device_path query_device
    starts_with strip_prefix to_ascii_lowercase
convert_nt_path_to_dos-convert_dos_path_to_nt decimal query earlier later letter devices name rest
      letter_ok found passed =
    let device = device_named name in
    let all = earlier ++ (letter, device ∷ devices) ∷ later in
    let own : head_matches (device ++ rest) device ≡ true =
      own_head device rest ∙ named (length name) in
    let asked : query_dos_device_path all (device ++ rest) ≡ some (letter ∷ b':' ∷ rest) =
      behind_none earlier ((letter, device ∷ devices) ∷ later) (device ++ rest) passed
      ∙ rw own (ap (λ x. some (letter ∷ b':' ∷ x)) (drop_front device rest (length device) refl)) in
    (rw (letter_ok, found) refl, rw asked refl)

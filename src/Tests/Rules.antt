-- ===== src/Tests/Rules.antt =====
-- The theorems on rules at concrete rules and connections.
use ceasefire.Prelude.{
  ◌≡◌, refl, true, false, List, [], ◌∷◌, none, some, ok, arith, ℕ_discrete, List-discrete,
  Option-discrete,
}
use ceasefire.Text.{Text, codes, split, trim, contains_char}
use ceasefire.Text.Number.{parse_uint}
use ceasefire.Net.Parse.{parse_ip}
use ceasefire.Models.{Rule, Direction-discrete, Protocol-discrete}
use ceasefire.Rule.Cidr.{validate_cidr, same_network, cidr_matches}
use ceasefire.Rule.Validator.{validate_rule, check_addr, max_mask}
use ceasefire.Rule.Validator.Accepted.{Accepted, validate_rule-Accepted}
use ceasefire.Rule.Match.{
  matches_rule, address_matches, holds, protocol_matches, direction_matches, network_zone_matches,
  name_contains, in_network,
}
use ceasefire.Rule.Match.Address.{MaskFits, field_contains, address_matches-field_contains}
use ceasefire.Rule.Cover.{
  matchset_covers, addr_field_covers, port_covers, covers_opt, direction_covers, protocol_covers,
  path_covers, parse_field,
}
use ceasefire.Rule.Cover.Sound.{MasksFit, matchset_covers_sound}
use ceasefire.Rule.Cover.Gap.{matchset_covers_misses}
use ceasefire.Rule.Select.{
  load_group_paths, matches_rule_with_groups, get_matching_rule, sort_by_priority,
}
use ceasefire.Rule.Select.First.{applies, Chosen, get_matching_rule-Chosen}
use ceasefire.Driver.Converter.{DriverRuleInput, from_rule}
use ceasefire.Driver.Converter.Accepts.{from_rule-validate_rule}
use ceasefire.Tests.{lower, block_all, to_addr, conn}

abbrev wide : Rule
wide = to_addr (codes "10.0.0.0/8")

abbrev narrow : Rule
narrow = to_addr (codes "10.1.0.0/16")

wide_matches : matches_rule wide conn ≡ true
unfolding matches_rule address_matches cidr_matches holds protocol_matches direction_matches
    network_zone_matches name_contains validate_cidr same_network contains_char split parse_uint
    parse_ip Direction-discrete Protocol-discrete
wide_matches = refl

narrow_matches : matches_rule narrow conn ≡ true
unfolding matches_rule address_matches cidr_matches holds protocol_matches direction_matches
    network_zone_matches name_contains validate_cidr same_network contains_char split parse_uint
    parse_ip Direction-discrete Protocol-discrete
narrow_matches = refl

all_match : matches_rule block_all conn ≡ true
unfolding matches_rule holds protocol_matches direction_matches Direction-discrete Protocol-discrete
all_match = refl

wide_covers : matchset_covers lower wide narrow ≡ true
unfolding matchset_covers addr_field_covers port_covers covers_opt direction_covers protocol_covers
    path_covers parse_field validate_cidr same_network contains_char split parse_uint parse_ip
    Direction-discrete Protocol-discrete Option-discrete List-discrete ℕ_discrete
wide_covers = refl

no_mask : (a : Text) → MaskFits a none
no_mask a m e = cc

no_masks : (r : Rule) → r.remote_addr_mask ≡ none → r.local_addr_mask ≡ none → MasksFit r
no_masks r h k = record { remote = λ a e. rw h (no_mask a); local = λ a e. rw k (no_mask a) }

matchset_covers_sound_example : matches_rule wide conn ≡ true
matchset_covers_sound_example =
    matchset_covers_sound lower wide narrow conn (no_masks wide refl refl)
      (no_masks narrow refl refl) (λ p e. cc) (λ p e. cc) (λ e. cc) (λ e. refl) wide_covers
      narrow_matches

address_matches-field_contains_example :
    address_matches (codes "10.1.0.0") (some 16) (codes "10.1.2.3")
    ≡ field_contains (parse_field (codes "10.1.0.0") (some 16)) (parse_ip (codes "10.1.2.3"))
unfolding max_mask split parse_ip
address_matches-field_contains_example =
    address_matches-field_contains (codes "10.1.0.0") (some 16) (codes "10.1.2.3")
      (λ m e. let p : 16 ≡ m = cc in omega arith)

other_addr : address_matches (codes "8.8.8.8") none (codes "10.1.2.3") ≡ false
unfolding address_matches contains_char parse_ip in_network
other_addr = refl

matchset_covers_misses_example : ¬ (
    matchset_covers lower (to_addr (codes "8.8.8.8")) block_all ≡ true
    → matches_rule block_all conn ≡ true
    → matches_rule (to_addr (codes "8.8.8.8")) conn ≡ true)
matchset_covers_misses_example =
    matchset_covers_misses lower block_all conn (codes "8.8.8.8") refl refl all_match other_addr

narrow_valid : validate_rule narrow ≡ ok tt
unfolding validate_rule check_addr max_mask validate_cidr trim contains_char split parse_uint
    parse_ip
narrow_valid = refl

validate_rule-Accepted_example : Accepted narrow
validate_rule-Accepted_example = validate_rule-Accepted narrow narrow_valid

from_rule-validate_rule_example :
    (input : DriverRuleInput) × (from_rule (λ d. none) narrow ≡ ok input)
from_rule-validate_rule_example = from_rule-validate_rule (λ d. none) narrow narrow_valid

abbrev rules : List Rule
rules = record narrow { priority = 9 } ∷ block_all ∷ []

chosen : get_matching_rule lower (λ g. []) rules conn ≡ some block_all
unfolding get_matching_rule matches_rule_with_groups load_group_paths sort_by_priority matches_rule
    address_matches cidr_matches holds protocol_matches direction_matches network_zone_matches
    name_contains validate_cidr same_network contains_char split parse_uint parse_ip
    Direction-discrete Protocol-discrete ℕ_discrete List-discrete
chosen = refl

narrow-applies : applies lower (λ g. []) rules conn (record narrow { priority = 9 }) ≡ true
unfolding get_matching_rule matches_rule_with_groups load_group_paths sort_by_priority matches_rule
    address_matches cidr_matches holds protocol_matches direction_matches network_zone_matches
    name_contains validate_cidr same_network contains_char split parse_uint parse_ip
    Direction-discrete Protocol-discrete ℕ_discrete List-discrete
narrow-applies = refl

get_matching_rule-Chosen_example :
    Chosen lower (λ g. []) rules conn (get_matching_rule lower (λ g. []) rules conn)
get_matching_rule-Chosen_example = get_matching_rule-Chosen lower (λ g. []) rules conn

none_chosen : get_matching_rule lower (λ g. []) (to_addr (codes "8.8.8.8") ∷ []) conn ≡ none
unfolding get_matching_rule matches_rule_with_groups load_group_paths sort_by_priority matches_rule
    address_matches cidr_matches holds protocol_matches direction_matches network_zone_matches
    name_contains validate_cidr same_network contains_char split parse_uint parse_ip
    Direction-discrete Protocol-discrete ℕ_discrete List-discrete in_network
none_chosen = refl

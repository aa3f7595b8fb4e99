-- ===== src/History/Statistics/Exact.antt =====
-- The counts of `get_statistics`, service/src/network_history/manager.rs, one by one.
use ceasefire.Prelude.{
  ℕ, ◌≤◌, ◌≡◌, ◌⊎◌, Bool, true, false, List, length, unwrap_or, list_eq, nat_eq, option_eq, Eq,
  keep, All,
}
use ceasefire.Prelude.Table.{Table, lookup}
use ceasefire.Text.{Text}
use ceasefire.Models.{NetworkHistoryRecord, rule_action_eq, protocol_eq}
use ceasefire.History.Statistics.Top.{Stands}

-- The number of records with a property.
abbrev pub number : (NetworkHistoryRecord → Bool) → List NetworkHistoryRecord → ℕ
number p rs = length (keep p rs)

abbrev one_if : Bool → ℕ
one_if true = 1
one_if false = 0

-- What a table says of a key.
abbrev pub tally {ℓ} : {K : Type ℓ} ⦃e : Eq K⦄ → K → Table K ℕ → ℕ
tally k t = unwrap_or 0 (lookup k t)

-- How an address fares in a list of the ten with most records: it has no record, or is listed with
-- their number, or is not ahead of any of the ten listed.
abbrev pub Fares : ℕ → Text → List (Text × ℕ) → Type 0
Fares n addr top = (n ≡ 0) ⊎ Stands (addr, n) top ⊎ ((length top ≡ 10) × All (λ e. n ≤ e.1) top)

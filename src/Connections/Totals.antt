-- ===== src/Connections/Totals.antt =====
-- The totals that `get_global_stats` reports.
use ceasefire.Prelude.{ℕ, ◌+◌, ◌≤◌, ◌≡◌, ◌∙◌, List, [], ◌∷◌, map, min, arith}
use ceasefire.Models.{ConnectionInfo}
use ceasefire.Connections.{
  ConnectionTracker, saturating_sum, saturating_add, get_global_stats, max_u64,
}

abbrev pub sum : List ℕ → ℕ
sum [] = 0
sum (x ∷ xs) = x + sum xs

saturating_sum_lem :
    (acc : ℕ) (xs : List ℕ) → acc ≤ max_u64 → saturating_sum acc xs ≡ min (acc + sum xs) max_u64
unfolding saturating_sum
saturating_sum_lem acc [] h = omega arith
saturating_sum_lem acc (x ∷ xs) h =
    saturating_sum_lem (saturating_add acc x) xs (omega arith) ∙ omega arith

-- Each total of `get_global_stats` is the exact sum over the connections, cut at the largest 64-bit
-- number: the sum that saturates at every step does not depend on the order of the connections.
pub get_global_stats-sum :
    (t : ConnectionTracker)
    → let cs : List ConnectionInfo = map (λ e. e.1) t.connections in
      ((get_global_stats t).total_bytes_sent ≡ min (sum (map (λ c. c.bytes_sent) cs)) max_u64)
      × ((get_global_stats t).total_bytes_received
          ≡ min (sum (map (λ c. c.bytes_received) cs)) max_u64)
      × ((get_global_stats t).total_packets_sent ≡ min (sum (map (λ c. c.packets_sent) cs)) max_u64)
      × ((get_global_stats t).total_packets_received
          ≡ min (sum (map (λ c. c.packets_received) cs)) max_u64)
unfolding get_global_stats
get_global_stats-sum t =
    let total : (xs : List ℕ) → saturating_sum 0 xs ≡ min (sum xs) max_u64 =
      λ xs. saturating_sum_lem 0 xs (omega arith) ∙ omega arith in
    (total _, total _, total _, total _)

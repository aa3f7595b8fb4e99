-- ===== src/History/Statistics.antt =====
-- `get_statistics` of service/src/network_history/manager.rs over the records that the database
-- returned.
pub mod Top
pub mod Exact
use ceasefire.Prelude.{
  ℕ, zero, suc, ◌+◌, ◌≤◌, ◌≡◌, refl, Bool, true, false, List, [], ◌∷◌, Option, none, some,
  if◌then◌else◌, leb, length, take, unwrap_or, same, list_eq, nat_eq, arith, length-take,
  Bool-cases, inl, inr, Eq,
}
use ceasefire.Prelude.Table.{Table, lookup, insert}
use ceasefire.Text.{Text}
use ceasefire.Models.{
  NetworkHistoryRecord, NetworkStatistics, RuleAction, rule_action_eq, protocol_eq,
}

-- `*entry(k).or_insert(0) += 1`
count {ℓ} : {K : Type ℓ} ⦃e : Eq K⦄ → K → Table K ℕ → Table K ℕ
count k t = insert k (unwrap_or 0 (lookup k t) + 1) t

count_app : Option Text → Table Text ℕ → Table Text ℕ
unfolding count
count_app none t = t
count_app (some name) t = count name t

-- `sort_by(|a, b| b.1.cmp(&a.1))`, which is stable.
insert_count : Text × ℕ → List (Text × ℕ) → List (Text × ℕ)
insert_count a [] = a ∷ []
insert_count a (x ∷ xs) =
    let rest = insert_count a xs in if leb (x.1) (a.1) then a ∷ x ∷ xs else x ∷ rest

pub sort_counts : List (Text × ℕ) → List (Text × ℕ)
unfolding insert_count
sort_counts [] = []
sort_counts (a ∷ l) = insert_count a (sort_counts l)

add_statistics : NetworkHistoryRecord → NetworkStatistics → NetworkStatistics
unfolding count count_app
add_statistics r s = record s {
  blocked_count = if same r.action RuleAction.block then s.blocked_count + 1 else s.blocked_count;
  allowed_count = if same r.action RuleAction.block then s.allowed_count else s.allowed_count + 1;
  by_protocol = count r.protocol s.by_protocol;
  by_app = count_app r.process_name s.by_app;
  top_remote_addrs = count r.remote_addr s.top_remote_addrs;
}

add_all : List NetworkHistoryRecord → NetworkStatistics → NetworkStatistics
unfolding add_statistics
add_all [] s = s
add_all (r ∷ rs) s = add_all rs (add_statistics r s)

abbrev start : List NetworkHistoryRecord → NetworkStatistics
start records = record {
  total_connections = length records;
  bytes_sent = 0;
  bytes_received = 0;
  by_protocol = [];
  by_app = [];
  top_remote_addrs = [];
  blocked_count = 0;
  allowed_count = 0;
}

unfoldable pub get_statistics : List NetworkHistoryRecord → NetworkStatistics
unfolding sort_counts add_all
get_statistics records =
    let stats = add_all records (start records) in
    record stats { top_remote_addrs = take 10 (sort_counts stats.top_remote_addrs) }

-- The sum of a table of counts.
abbrev pub sum_counts {ℓ} : {K : Type ℓ} → Table K ℕ → ℕ
sum_counts [] = 0
sum_counts ((k, n) ∷ t) = n + sum_counts t

sum-insert {ℓ} :
    {K : Type ℓ} ⦃e : Eq K⦄ (k : K) (v : ℕ) (t : Table K ℕ)
    → sum_counts (insert k v t) + unwrap_or 0 (lookup k t) ≡ sum_counts t + v
sum-insert k v [] = omega arith
sum-insert k v ((j, n) ∷ t) = elim (Bool-cases (same k j)) [
  | inl h ↦ rw h (omega arith)
  | inr h ↦ rw h (omega (arith, sum-insert k v t))
]

sum-count {ℓ} :
    {K : Type ℓ} ⦃e : Eq K⦄ (k : K) (t : Table K ℕ) → sum_counts (count k t) ≡ sum_counts t + 1
unfolding count
sum-count k t = omega (arith, sum-insert k (unwrap_or 0 (lookup k t) + 1) t)

sum-count_app : (o : Option Text) (t : Table Text ℕ) → sum_counts (count_app o t) ≤ sum_counts t + 1
unfolding count_app
sum-count_app none t = omega arith
sum-count_app (some name) t = omega (arith, sum-count name t)

blocked_or_allowed :
    (b : Bool) (n m : ℕ) → (if b then n + 1 else n) + (if b then m else m + 1) ≡ n + m + 1
blocked_or_allowed true n m = omega arith
blocked_or_allowed false n m = omega arith

-- What each record adds.
add_all-sums :
    (rs : List NetworkHistoryRecord) (s : NetworkStatistics)
    → let d = add_all rs s in
      (d.blocked_count + d.allowed_count ≡ s.blocked_count + s.allowed_count + length rs)
      × (sum_counts d.by_protocol ≡ sum_counts s.by_protocol + length rs)
      × (sum_counts d.by_app ≤ sum_counts s.by_app + length rs)
      × (sum_counts d.top_remote_addrs ≡ sum_counts s.top_remote_addrs + length rs)
unfolding add_all add_statistics
add_all-sums [] s = (omega arith, omega arith, omega arith, omega arith)
add_all-sums (r ∷ rs) s =
    let (one, two, three, four) = add_all-sums rs (add_statistics r s) in
    let by_app = sum-count_app r.process_name s.by_app in
    let by_protocol = sum-count r.protocol s.by_protocol in
    let by_addr = sum-count r.remote_addr s.top_remote_addrs in
    let actions =
      blocked_or_allowed (same r.action RuleAction.block) s.blocked_count s.allowed_count in
    (
      omega (arith, one, actions),
      omega (arith, two, by_protocol),
      omega (arith, three, by_app),
      omega (arith, four, by_addr),
    )

add_all-kept :
    (rs : List NetworkHistoryRecord) (s : NetworkStatistics)
    → let d = add_all rs s in
      (d.total_connections ≡ s.total_connections)
      × (d.bytes_sent ≡ s.bytes_sent)
      × (d.bytes_received ≡ s.bytes_received)
unfolding add_all add_statistics
add_all-kept [] s = (refl, refl, refl)
add_all-kept (r ∷ rs) s = add_all-kept rs (add_statistics r s)

sum-insert_count :
    (a : Text × ℕ) (l : List (Text × ℕ)) → sum_counts (insert_count a l) ≡ a.1 + sum_counts l
unfolding insert_count
sum-insert_count a [] = omega arith
sum-insert_count a (x ∷ xs) = elim (Bool-cases (leb (x.1) (a.1))) [
  | inl h ↦ rw h refl
  | inr h ↦ rw h (omega (arith, sum-insert_count a xs))
]

sum-sort_counts : (l : List (Text × ℕ)) → sum_counts (sort_counts l) ≡ sum_counts l
unfolding sort_counts
sum-sort_counts [] = refl
sum-sort_counts (a ∷ l) = omega (arith, sum-insert_count a (sort_counts l), sum-sort_counts l)

sum-take : (n : ℕ) (l : List (Text × ℕ)) → sum_counts (take n l) ≤ sum_counts l
sum-take zero l = omega arith
sum-take (suc n) [] = omega arith
sum-take (suc n) (x ∷ xs) = omega (arith, sum-take n xs)

-- Each record counts once as blocked or as allowed and once under its protocol, and at most once
-- under a process and under an address; at most ten addresses are listed. The totals of bytes are 0,
-- whatever the records say.
pub get_statistics-sums :
    (rs : List NetworkHistoryRecord)
    → let d = get_statistics rs in
      (d.total_connections ≡ length rs)
      × (d.blocked_count + d.allowed_count ≡ length rs)
      × (sum_counts d.by_protocol ≡ length rs)
      × (sum_counts d.by_app ≤ length rs)
      × (sum_counts d.top_remote_addrs ≤ length rs)
      × (length d.top_remote_addrs ≤ 10)
      × (d.bytes_sent ≡ 0)
      × (d.bytes_received ≡ 0)
unfolding get_statistics
get_statistics-sums rs =
    let d = add_all rs (start rs) in
    let (one, two, three, four) = add_all-sums rs (start rs) in
    let (total, up, down) = add_all-kept rs (start rs) in
    let sorted = sort_counts d.top_remote_addrs in
    (
      total,
      omega (arith, one),
      omega (arith, two),
      omega (arith, three),
      omega (arith, four, sum-sort_counts d.top_remote_addrs, sum-take 10 sorted),
      omega (arith, length-take 10 sorted),
      up,
      down,
    )

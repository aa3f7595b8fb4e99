-- ===== src/Bandwidth/Limiter.antt =====
-- `BandwidthLimiter` of service/src/bandwidth/mod.rs: the buckets of the processes, by normalized
-- path, and those of the whole machine. `lower` is `str::to_lowercase`, `earned` the tokens of a time
-- span.
use ceasefire.Prelude.{
  ℕ, ◌*◌, ◌/◌, ◌%◌, ◌^◌, ◌<◌, ◌≡◌, ap, Bool, true, false, List, [], ◌∷◌, ◌++◌, map, Option, none,
  some, if◌then◌else◌, any, same, nat_eq, list_eq, arith, same→eq, differ, unwrap_or, Bool-cases,
  inl, inr,
}
use ceasefire.Prelude.Table.{
  Table, lookup, insert, remove, lookup-insert, lookup-remove, lookup-insert_other,
  lookup-remove_other,
}
use ceasefire.Text.{Text}
use ceasefire.Models.Path.{normalize_path}
use ceasefire.Bandwidth.{TokenBucket, new, consume}

pub record BandwidthLimiter : Type 0 where
  pub upload_limits : Table Text TokenBucket
  pub download_limits : Table Text TokenBucket
  pub global_upload_limit : Option TokenBucket
  pub global_download_limit : Option TokenBucket

pub record BandwidthStats : Type 0 where
  pub process_path : Text
  pub upload_limit_kbps : Option ℕ
  pub download_limit_kbps : Option ℕ

-- A full bucket for a limit in kbps.
limit_bucket : ℕ → ℕ → TokenBucket
limit_bucket now kbps = new now (kbps * 1024 / 8) (kbps * 1024 / 8)

set_limit : ℕ → Text → Option ℕ → Table Text TokenBucket → Table Text TokenBucket
set_limit now key none limits = remove key limits
set_limit now key (some kbps) limits = insert key (limit_bucket now kbps) limits

-- `(rate / 1024 * 8) as u32`
rate_kbps : Option TokenBucket → Option ℕ
rate_kbps none = none
rate_kbps (some b) = some ((b.rate / 1024 * 8) % 2 ^ 32)

-- A limit as it is reported.
abbrev pub rounded : Option ℕ → Option ℕ
rounded none = none
rounded (some kbps) = some (kbps / 8 * 8)

add_missing : List Text → List Text → List Text
add_missing all [] = all
add_missing all (k ∷ ks) =
    let rest = add_missing (if any (same k) all then all else all ++ (k ∷ [])) ks in rest

module _ (earned : ℕ → ℕ → ℕ) (lower : Text → Text) where
  -- The check of one table: the answer, and the table with the bucket after it.
  ask : ℕ → ℕ → Text → Option TokenBucket → Table Text TokenBucket → Bool × Table Text TokenBucket
  ask now bytes key none limits = (true, limits)
  ask now bytes key (some b) limits =
      let (granted, b1) = consume earned now bytes b in (granted, insert key b1 limits)

  ask_global : ℕ → ℕ → Bool → Option TokenBucket → Bool × Option TokenBucket
  ask_global now bytes false g = (false, g)
  ask_global now bytes true none = (true, none)
  ask_global now bytes true (some b) =
      let (granted, b1) = consume earned now bytes b in (granted, some b1)

  unfoldable pub allow_upload : ℕ → BandwidthLimiter → Text → ℕ → Bool × BandwidthLimiter
  unfolding ask ask_global
  allow_upload now l process_path bytes =
      let key = normalize_path lower process_path in
      let (own, limits) = ask now bytes key (lookup key l.upload_limits) l.upload_limits in
      let (allowed, g) = ask_global now bytes own l.global_upload_limit in
      (
        allowed,
        record {
          upload_limits = limits;
          download_limits = l.download_limits;
          global_upload_limit = g;
          global_download_limit = l.global_download_limit;
        },
      )

  unfoldable pub allow_download : ℕ → BandwidthLimiter → Text → ℕ → Bool × BandwidthLimiter
  unfolding ask ask_global
  allow_download now l process_path bytes =
      let key = normalize_path lower process_path in
      let (own, limits) = ask now bytes key (lookup key l.download_limits) l.download_limits in
      let (allowed, g) = ask_global now bytes own l.global_download_limit in
      (
        allowed,
        record {
          upload_limits = l.upload_limits;
          download_limits = limits;
          global_upload_limit = l.global_upload_limit;
          global_download_limit = g;
        },
      )

module _ (lower : Text → Text) where
  unfoldable pub set_limits : ℕ → BandwidthLimiter → Text → Option ℕ → Option ℕ → BandwidthLimiter
  unfolding limit_bucket set_limit
  set_limits now l process_path upload_kbps download_kbps =
      let key = normalize_path lower process_path in
      record {
        upload_limits = set_limit now key upload_kbps l.upload_limits;
        download_limits = set_limit now key download_kbps l.download_limits;
        global_upload_limit = l.global_upload_limit;
        global_download_limit = l.global_download_limit;
      }

  unfoldable pub get_upload_limit : BandwidthLimiter → Text → Option ℕ
  unfolding rate_kbps
  get_upload_limit l process_path =
      rate_kbps (lookup (normalize_path lower process_path) l.upload_limits)

  unfoldable pub get_download_limit : BandwidthLimiter → Text → Option ℕ
  unfolding rate_kbps
  get_download_limit l process_path =
      rate_kbps (lookup (normalize_path lower process_path) l.download_limits)

  kbps_lem : (kbps : ℕ) → kbps < 2 ^ 32 → (kbps * 1024 / 8 / 1024 * 8) % 2 ^ 32 ≡ kbps / 8 * 8
  kbps_lem kbps h = omega arith

  set_limit_lem :
      (now : ℕ) (key other : Text) (kbps : Option ℕ) (t : Table Text TokenBucket)
      → unwrap_or 0 kbps < 2 ^ 32
      → rate_kbps (lookup other (set_limit now key kbps t))
        ≡ (if same other key then rounded kbps else rate_kbps (lookup other t))
  unfolding rate_kbps set_limit limit_bucket new
  set_limit_lem now key other none t h = elim (Bool-cases (same other key)) [
    | inl g ↦ rw (g, same→eq other key g, lookup-remove key t)
    | inr g ↦ rw (g, lookup-remove_other key other t (differ other key g))
  ]
  set_limit_lem now key other (some up) t h = elim (Bool-cases (same other key)) [
    | inl g ↦
        rw (g, same→eq other key g, lookup-insert key (limit_bucket now up) t)
          (ap some (kbps_lem up h))
    | inr g ↦ rw (g, lookup-insert_other key other (limit_bucket now up) t (differ other key g))
  ]

  -- Limits below 2^32 that were set for a path are reported for both directions, a limit that was given
  -- rounded down to a multiple of 8 kbps and none where none was given, under every spelling of the
  -- path that is normalized to the same one. The limits of another path are reported as before.
  pub get_limit-set_limits :
      (now : ℕ) (l : BandwidthLimiter) (path other : Text) (up down : Option ℕ)
      → unwrap_or 0 up < 2 ^ 32
      → unwrap_or 0 down < 2 ^ 32
      → (get_upload_limit (set_limits now l path up down) other ≡ (
          if same (normalize_path lower other) (normalize_path lower path)
          then rounded up
          else get_upload_limit l other))
        × (get_download_limit (set_limits now l path up down) other ≡ (
            if same (normalize_path lower other) (normalize_path lower path)
            then rounded down
            else get_download_limit l other))
  unfolding get_upload_limit get_download_limit set_limits
  get_limit-set_limits now l path other up down h k =
      let key = normalize_path lower path in
      let asked = normalize_path lower other in
      (
        set_limit_lem now key asked up l.upload_limits h,
        set_limit_lem now key asked down l.download_limits k,
      )

unfoldable pub set_global_limits : ℕ → BandwidthLimiter → Option ℕ → Option ℕ → BandwidthLimiter
unfolding limit_bucket
set_global_limits now l upload_kbps download_kbps = record {
  upload_limits = l.upload_limits;
  download_limits = l.download_limits;
  global_upload_limit = elim upload_kbps [ none ↦ none | some kbps ↦ some (limit_bucket now kbps) ];
  global_download_limit = elim download_kbps [
    | none ↦ none
    | some kbps ↦ some (limit_bucket now kbps)
  ];
}

unfoldable pub get_bandwidth_stats : BandwidthLimiter → List BandwidthStats
unfolding rate_kbps add_missing
get_bandwidth_stats l =
    map
      (λ p. record {
        process_path = p;
        upload_limit_kbps = rate_kbps (lookup p l.upload_limits);
        download_limit_kbps = rate_kbps (lookup p l.download_limits);
      })
      (add_missing (map (λ e. e.0) l.upload_limits) (map (λ e. e.0) l.download_limits))

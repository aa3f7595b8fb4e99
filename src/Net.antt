-- ===== src/Net.antt =====
-- IP addresses: `std::net::IpAddr` and its text form.
pub mod Parse
pub mod Prefix
use ceasefire.Prelude.{ℕ, ◌^◌, ◌<◌, Eq, ℕ_discrete}

-- An address by its numeric value: `u32::from(v4)`, `u128::from(v6)`.
pub data IpAddr : Type 0 where
  v4 : ℕ → IpAddr
  v6 : ℕ → IpAddr

unfoldable pub IpAddr-discrete : Discrete IpAddr
IpAddr-discrete = hlevel ℕ_discrete

instance abbrev pub ip_eq : Eq IpAddr
unfolding IpAddr-discrete
ip_eq = record { dec = IpAddr-discrete }

abbrev pub InRange : IpAddr → Type 0
InRange (v4 x) = x < 2 ^ 32
InRange (v6 x) = x < 2 ^ 128

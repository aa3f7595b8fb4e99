-- ===== src/Geo.antt =====
-- `GeoCache` of service/src/geoip/service.rs: the cache of locations and the queue of its keys. A
-- location is a type of its own.
pub mod Keys
pub mod Others
pub mod Queue
use ceasefire.Prelude.{
  ℕ, Bool, true, false, List, [], ◌∷◌, ◌++◌, Option, none, some, leb, if◌then◌else◌, length, same,
  list_eq, nat_eq, is_some,
}
use ceasefire.Prelude.Table.{Table, lookup, insert, remove}
use ceasefire.Text.{Text}

abbrev pub cache_max_entries : ℕ
cache_max_entries = 10_000

pub record GeoCache (V : Type 0) : Type 0 where
  pub entries : Table Text V
  pub order : List Text

-- `position` and `remove` at it: the first element that is the key.
unfoldable pub remove_first : Text → List Text → List Text
remove_first ip [] = []
remove_first ip (k ∷ ks) = let rest = remove_first ip ks in if same k ip then ks else k ∷ rest

module _ {V : Type 0} where
  evict : Table Text V → List Text → GeoCache V
  evict t [] = record { entries = t; order = [] }
  evict t (oldest ∷ ks) = record { entries = remove oldest t; order = ks }

  make_room : GeoCache V → GeoCache V
  unfolding evict
  make_room c = if leb cache_max_entries (length c.entries) then evict c.entries c.order else c

  unfoldable pub cache_insert : Text → V → GeoCache V → GeoCache V
  unfolding make_room
  cache_insert ip location c =
      let roomy = make_room c in
      if is_some (lookup ip c.entries)
      then record c { entries = insert ip location c.entries }
      else record { entries = insert ip location roomy.entries; order = roomy.order ++ ip ∷ [] }

  unfoldable pub cache_remove : Text → GeoCache V → Bool × GeoCache V
  unfolding remove_first
  cache_remove ip c =
      if is_some (lookup ip c.entries)
      then (true, record { entries = remove ip c.entries; order = remove_first ip c.order })
      else (false, c)

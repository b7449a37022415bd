-- ===== src/Log/Holds.antt =====
-- What a log holds: one sequence of payloads, whatever segments it is cut into.
use smolkafka.Prelude.{ℕ, ◌+◌, ◌*◌, ◌^◌, ◌<◌, ◌≡◌, true, none, List, [], ◌∷◌, ◌++◌, length, flatten}
use smolkafka.Bytes.{Bytes}
use smolkafka.Disk.{Dir, lookup}
use smolkafka.Disk.Listing.{file_names, names_of}
use smolkafka.Names.{store_name, index_name}
use smolkafka.Segment.Holds.{bytes_of}
use smolkafka.Log.{Log, in_list}
use smolkafka.Log.Chain.{Chain}
use smolkafka.Log.Starts.{starts, AllFilled}

-- There are no files of a segment that begins behind the offset `last`.
pub record IsFresh (last : ℕ) (d : Dir) : Type 0 where
  pub exists_lem : d.exists ≡ true
  pub no_store : (n : ℕ) → last < n → n < 2 ^ 63 → lookup (store_name n) d.files ≡ none
  pub no_index : (n : ℕ) → last < n → n < 2 ^ 63 → lookup (index_name n) d.files ≡ none

-- The log `l` holds the payloads `fs`, the first at the offset `base`. The last segment is the active
-- one, and is below both limits; the others are not empty, and the directory has the segments' files
-- and no other.
pub record Holds (l : Log) (base : ℕ) (fs : List Bytes) : Type 0 where
  pub earlier : List (List Bytes)
  pub last : List Bytes
  pub all_lem : fs ≡ flatten earlier ++ last
  pub chain : Chain l.config base l.segments (earlier ++ (last ∷ []))
  pub active_lem : l.active ≡ in_list
  pub fresh : IsFresh (base + length (flatten earlier)) l.dir
  pub store_room : bytes_of last < l.config.max_store_bytes
  pub index_room : 12 * length last < l.config.max_index_bytes
  pub index_small : l.config.max_index_bytes < 2 ^ 32
  pub filled : AllFilled earlier
  pub listed : file_names l.dir.files ≡ names_of (starts base (earlier ++ (last ∷ [])))

-- ===== src/Segment.antt =====
-- internal/log/segment.go: a store and its index, for the records from one offset on.
pub mod Holds
pub mod Append
pub mod Read
pub mod Files
pub mod Position
pub mod Reopen
pub mod Remove
use smolkafka.Prelude.{
  ℕ, ◌+◌, ◌-◌, ◌*◌, ◌/◌, ◌%◌, ◌^◌, Bool, true, false, ◌||◌, leb, ◌==◌, if◌then◌else◌,
}
use smolkafka.Exec.{Result, ok, err, panic, Exec, pure, lift, gets, modify, zoom, ◌>>=◌, ◌>>◌}
use smolkafka.Bytes.{Bytes}
use smolkafka.Platform.{Platform, Record}
use smolkafka.Store
use smolkafka.Store.{Store}
use smolkafka.Index
use smolkafka.Index.{Index, add64, minus_one}
use smolkafka.Disk.{Dir, open_file, save, remove_file}
use smolkafka.Names.{store_name, index_name}

-- `Config.Segment` of internal/log/config.go.
pub record Config : Type 0 where
  pub max_store_bytes : ℕ
  pub max_index_bytes : ℕ
  pub initial_offset : ℕ

-- `segment`
pub record Segment : Type 0 where
  pub store : Store
  pub index : Index
  pub base_offset : ℕ
  pub next_offset : ℕ
  pub config : Config

-- `uint64` subtraction.
abbrev pub sub64 : ℕ → ℕ → ℕ
sub64 a b = (a + 2 ^ 64 - b) % 2 ^ 64

-- A method of the store, or of the index, of a segment.
abbrev pub in_store : {A : Type 0} → Exec Store A → Exec Segment A
in_store m s = let (r, t) = m s.store in (r, record s { store = t })

abbrev pub in_index : {A : Type 0} → Exec Index A → Exec Segment A
in_index m s = let (r, i) = m s.index in (r, record s { index = i })

-- The end of `newSegment`: the offset after the last one that the index names.
unfoldable pub next_after : ℕ → Result (ℕ × ℕ) → Result ℕ
next_after base (err panic) = err panic
next_after base (err _) = ok base
next_after base (ok (off, _)) = ok (add64 (add64 base off) 1)

-- `IsMaxed`
unfoldable pub is_maxed : Segment → Bool
is_maxed s = leb s.config.max_store_bytes s.store.size || leb s.config.max_index_bytes s.index.size

-- `nearestMultiple`: an unsigned `j` is never below 0, and a division by 0 panics.
pub nearest_multiple : ℕ → ℕ → Result ℕ
nearest_multiple j k = if k == 0 then err panic else ok ((j / k) * k)

module _ (os : Platform) where
  -- `newIndex` on a file of the directory, whose contents it changes.
  pub index_on_file : ℕ → ℕ → Exec Dir Index
  index_on_file base max_index_bytes = do
    contents ← open_file (index_name base)
    λ d.
        let (r, contents') = Index.new_index os max_index_bytes contents in
        (r, save (index_name base) contents' d)

  -- `newSegment`
  pub new_segment : ℕ → Config → Exec Dir Segment
  new_segment base c = do
    store_contents ← open_file (store_name base)
    index ← index_on_file base c.max_index_bytes
    next ← lift (next_after base (Index.read minus_one index))
    pure (record {
      store = Store.new_store store_contents;
      index = index;
      base_offset = base;
      next_offset = next;
      config = c;
    })

  -- `Append`; the record that is written carries the offset that it is given.
  pub append : Record → Exec Segment ℕ
  append r = do
    cur ← gets (λ s. s.next_offset)
    p ← lift (os.marshal (record r { offset = cur }))
    (_, pos) ← in_store (Store.append p)
    off ← gets (λ s. sub64 s.next_offset s.base_offset % 2 ^ 32)
    in_index (Index.write off pos)
    modify (λ s. record s { next_offset = add64 s.next_offset 1 })
    pure cur

  -- `Read`
  pub read : ℕ → Exec Segment Record
  read off = do
    (_, pos) ← λ s. (Index.read (sub64 off s.base_offset) s.index, s)
    p ← in_store (Store.read pos)
    lift (os.unmarshal p)

  -- `Close`: the index, then the store. What each file then holds is in the directory.
  pub close : Exec (Segment × Dir) Unit
  close = do
    contents ← λ (s, d). let (r, s') = in_index (Index.close os) s in (r, (s', d))
    λ (s, d). (ok tt, (s, save (index_name s.base_offset) contents d))
    λ (s, d). let (r, s') = in_store Store.close s in (r, (s', d))
    λ (s, d). (ok tt, (s, save (store_name s.base_offset) s.store.file.contents d))

  -- `Remove`
  pub remove : Exec (Segment × Dir) Unit
  remove = do
    close
    λ (s, d). let (r, d') = remove_file (index_name s.base_offset) d in (r, (s, d'))
    λ (s, d). let (r, d') = remove_file (store_name s.base_offset) d in (r, (s, d'))

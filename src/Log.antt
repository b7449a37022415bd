-- ===== src/Log.antt =====
-- internal/log/log.go: the segments of one directory, the last of them the one that is written to.
-- Each method holds the log's lock, so it is one step.
pub mod Chain
pub mod Starts
pub mod Holds
pub mod Pending
pub mod Append
pub mod Position
pub mod Suits
pub mod Read
pub mod CutOff
pub mod Cut
pub mod Kept
pub mod Truncate
pub mod Reset
pub mod Stuck
pub mod Offsets
pub mod Setup
pub mod Sorting
pub mod Close
pub mod Loop
pub mod Reopen
pub mod Restart
pub mod Contract
use smolkafka.Prelude.{
  ℕ, zero, suc, ◌+◌, ◌-◌, ◌%◌, ◌^◌, Bool, true, false, ◌&&◌, ◌||◌, Option, none, some, List, [],
  ◌∷◌, ◌++◌, map, ltb, leb, ◌==◌, if◌then◌else◌,
}
use smolkafka.Exec.{
  Result, ok, err, offset_out_of_range, not_exist, panic, Exec, pure, lift, gets, modify, zoom,
  ◌>>=◌, ◌>>◌,
}
use smolkafka.Bytes.{Bytes}
use smolkafka.Platform.{Platform, Record}
use smolkafka.Index.{add64}
use smolkafka.Disk.{Name, Files, Dir, remove_all}
use smolkafka.Disk.Listing.{file_names}
use smolkafka.Names.{parse_base}
use smolkafka.Segment
use smolkafka.Segment.{Segment, Config, is_maxed}

-- What `activeSegment` points at: nothing yet, the last of `segments`, or a segment that `Truncate`
-- has taken out of them.
pub data Active : Type 0 where
  unset : Active
  in_list : Active
  detached : Segment → Active

-- `Log`
pub record Log : Type 0 where
  pub dir : Dir
  pub config : Config
  pub active : Active
  pub segments : List Segment

-- A method of the last segment.
unfoldable pub with_last : {A : Type 0} → Exec Segment A → Exec (List Segment) A
with_last m [] = (err panic, [])
with_last m (s ∷ []) = let (r, s') = m s in (r, s' ∷ [])
with_last m (s ∷ t ∷ ss) = let (r, ss') = with_last m (t ∷ ss) in (r, s ∷ ss')

on_active_of : {A : Type 0} → Active → Exec Segment A → Exec Log A
on_active_of unset m l = (err panic, l)
on_active_of in_list m l = let (r, ss) = with_last m l.segments in (r, record l { segments = ss })
on_active_of (detached s) m l = let (r, s') = m s in (r, record l { active = detached s' })

-- A method of `activeSegment`; a nil pointer panics.
pub on_active : {A : Type 0} → Exec Segment A → Exec Log A
on_active m l = on_active_of l.active m l

-- A call whose error is dropped.
abbrev ignore_error : Exec Log Unit → Exec Log Unit
ignore_error m l = (ok tt, (m l).1)

-- `LowestOffset`
pub lowest_offset_of : List Segment → Result ℕ
lowest_offset_of [] = err panic
lowest_offset_of (s ∷ ss) = ok s.base_offset

pub lowest_offset : Log → Result ℕ
lowest_offset l = lowest_offset_of l.segments

-- `HighestOffset`
pub highest_offset_of : List Segment → Result ℕ
highest_offset_of [] = err panic
highest_offset_of (s ∷ []) = ok (if s.next_offset == 0 then 0 else s.next_offset - 1)
highest_offset_of (s ∷ t ∷ ss) = highest_offset_of (t ∷ ss)

pub highest_offset : Log → Result ℕ
highest_offset l = highest_offset_of l.segments

-- The loop of `setup` takes the first of each two offsets, since a segment has two files.
pub every_other : List ℕ → List ℕ
every_other [] = []
every_other (x ∷ []) = x ∷ []
every_other (x ∷ y ∷ xs) = x ∷ every_other xs

pub insert_sorted : ℕ → List ℕ → List ℕ
insert_sorted x [] = x ∷ []
insert_sorted x (y ∷ ys) = if leb x y then x ∷ y ∷ ys else y ∷ insert_sorted x ys

-- `sort.Slice`
pub sort : List ℕ → List ℕ
sort [] = []
sort (x ∷ xs) = insert_sorted x (sort xs)

-- The order of `os.ReadDir`: by the file's name, character by character.
pub name_le : Name → Name → Bool
name_le [] n = true
name_le (c ∷ m) [] = false
name_le (c ∷ m) (d ∷ n) = ltb c d || (c == d && name_le m n)

pub insert_name : Name → List Name → List Name
insert_name n [] = n ∷ []
insert_name n (m ∷ ms) = if name_le n m then n ∷ m ∷ ms else m ∷ insert_name n ms

pub sort_names : List Name → List Name
sort_names [] = []
sort_names (n ∷ ns) = insert_name n (sort_names ns)

-- `os.ReadDir`
read_dir : Dir → Result (List Name)
read_dir d = if d.exists then ok (sort_names (file_names d.files)) else err not_exist

-- Whether `Truncate` removes the segment.
pub is_below : ℕ → Segment → Bool
is_below lowest s = leb s.next_offset (add64 lowest 1)

-- The pointer `activeSegment` after `Truncate`, of which the loop has left these segments.
pub active_after : ℕ → Active → List Segment → Active
active_after lowest in_list [] = in_list
active_after lowest in_list (s ∷ []) = if is_below lowest s then detached s else in_list
active_after lowest in_list (s ∷ t ∷ ss) = active_after lowest in_list (t ∷ ss)
active_after lowest a ss = a

-- `NewLog`'s defaults.
unfoldable pub with_defaults : Config → Config
with_defaults c = record c {
  max_store_bytes = if c.max_store_bytes == 0 then 1024 else c.max_store_bytes;
  max_index_bytes = if c.max_index_bytes == 0 then 1024 else c.max_index_bytes;
}

-- The loop of `Truncate` returns the error of a segment that could not be removed, and else goes on.
after_remove :
    Result (Unit {0})
    → Result (List Segment)
    → Segment
    → List Segment
    → List Segment
    → Dir
    → Dir
    → Result (List Segment) × (List Segment × Dir)
after_remove (ok _) k s' ss ss' d' d'' = (k, (s' ∷ ss', d''))
after_remove (err e) k s' ss ss' d' d'' = (err e, (s' ∷ ss, d'))

after_keep :
    Segment
    → Result (List Segment) × (List Segment × Dir)
    → Result (List Segment) × (List Segment × Dir)
after_keep s (ok kept, (ss', d')) = (ok (s ∷ kept), (s ∷ ss', d'))
after_keep s (err e, (ss', d')) = (err e, (s ∷ ss', d'))

module _ (os : Platform) where
  -- `newSegment`
  pub new_segment : ℕ → Exec Log Unit
  new_segment off l =
      let (r, d) = Segment.new_segment os off l.config l.dir in
      elim r [
        | ok s ↦ (ok tt, record l { dir = d; segments = l.segments ++ (s ∷ []); active = in_list })
        | err e ↦ (err e, record l { dir = d })
      ]

  -- `Append`. The error of a new segment is assigned and not returned.
  pub append : Record → Exec Log ℕ
  append r = do
    off ← on_active (Segment.append os r)
    maxed ← on_active (λ s. (ok (is_maxed s), s))
    if maxed then ignore_error (new_segment (add64 off 1)) else pure tt
    pure off

  -- The loop of `Read`: the first segment with the offset.
  pub read_in : ℕ → Exec (List Segment) Record
  read_in off [] = (err (offset_out_of_range off), [])
  read_in off (s ∷ ss) =
      let (r, s') = Segment.read os off s in
      let (r', ss') = read_in off ss in
      if leb s.base_offset off && ltb off s.next_offset then (r, s' ∷ ss) else (r', s ∷ ss')

  -- `Read`
  pub read : ℕ → Exec Log Record
  read off l = let (r, ss) = read_in off l.segments in (r, record l { segments = ss })

  -- The loop of `Close`.
  close_all : Exec (List Segment × Dir) Unit
  close_all ([], d) = (ok tt, ([], d))
  close_all (s ∷ ss, d) =
      let (r, (s', d')) = Segment.close os (s, d) in
      let (r', (ss', d'')) = close_all (ss, d') in
      elim r [ ok _ ↦ (r', (s' ∷ ss', d'')) | err e ↦ (err e, (s' ∷ ss, d')) ]

  -- `Close`
  pub close : Exec Log Unit
  close l =
      let (r, (ss, d)) = close_all (l.segments, l.dir) in (r, record l { segments = ss; dir = d })

  -- `Remove`
  pub remove : Exec Log Unit
  remove = do close; λ l. let (r, d) = remove_all l.dir in (r, record l { dir = d })

  pub new_segments : List ℕ → Exec Log Unit
  new_segments [] = pure tt
  new_segments (b ∷ bs) = do new_segment b; new_segments bs

  -- The initial segment, where there is none.
  bootstrap_of : List Segment → Exec Log Unit
  bootstrap_of [] l = new_segment l.config.initial_offset l
  bootstrap_of (s ∷ ss) l = (ok tt, l)

  bootstrap : Exec Log Unit
  bootstrap l = bootstrap_of l.segments l

  -- `setup`
  pub setup : Exec Log Unit
  setup = do
    names ← λ l. (read_dir l.dir, l)
    new_segments (every_other (sort (map parse_base names)))
    bootstrap

  -- `Reset`
  pub reset : Exec Log Unit
  reset = do remove; setup

  -- `NewLog`: the log comes back beside the error of `setup`.
  pub new_log : Dir → Config → Result (Unit {0}) × Log
  new_log d c = setup (record { dir = d; config = with_defaults c; active = unset; segments = [] })

  -- The loop of `Truncate`: the segments to keep, and all segments as the loop leaves them.
  pub truncate_loop : ℕ → List Segment → Dir → Result (List Segment) × (List Segment × Dir)
  truncate_loop lowest [] d = (ok [], ([], d))
  truncate_loop lowest (s ∷ ss) d =
      let removed =
        let (r, (s', d')) = Segment.remove os (s, d) in
        let (k, (ss', d'')) = truncate_loop lowest ss d' in after_remove r k s' ss ss' d' d'' in
      let kept = after_keep s (truncate_loop lowest ss d) in
      if is_below lowest s then removed else kept

  -- `Truncate`
  pub truncate : ℕ → Exec Log Unit
  truncate lowest l =
      let (k, (ss, d)) = truncate_loop lowest l.segments l.dir in
      elim k [
        | ok kept ↦
            (ok tt, record l { segments = kept; active = active_after lowest l.active ss; dir = d })
        | err e ↦ (err e, record l { segments = ss; dir = d })
      ]

-- ===== src/Tests/Storage.antt =====
-- The stores, the indexes and the segments of internal/log at concrete inputs.
use smolkafka.Prelude.{ℕ, ◌+◌, ◌≡◌, refl, ap, ◌∙◌, List, [], ◌∷◌, ◌++◌, arith, length}
use smolkafka.Exec.{ok}
use smolkafka.Exec.Returns.{Returns}
use smolkafka.Bytes.{Bytes, put_uint64}
use smolkafka.Store
use smolkafka.Store.{Store, new_store}
use smolkafka.Store.Frames.{Shows, frame, frames-nil}
use smolkafka.Store.Read.{new_store-Shows, store_read_lem}
use smolkafka.Index
use smolkafka.Index.{Index, minus_one}
use smolkafka.Index.Entries.{entries, Shows as IndexShows}
use smolkafka.Index.Laws.{write-room}
use smolkafka.Index.Mapped.{new_index_lem}
use smolkafka.Disk.{lookup}
use smolkafka.Log.Setup.{empty_dir}
use smolkafka.Segment
use smolkafka.Segment.{Segment, Config}
use smolkafka.Segment.Holds.{Holds, IsSame}
use smolkafka.Segment.Append.{IsStuck, segment_append_lem}
use smolkafka.Segment.Read.{segment_read_lem}
use smolkafka.Segment.Reopen.{new_segment-fresh, new_segment-close}
use smolkafka.Tests.{toy, hello}

-- A store of two frames.
abbrev two_frames : Bytes
two_frames = frame (7 ∷ []) ++ (frame (8 ∷ []) ++ [])

length-two_frames : length two_frames ≡ 18
unfolding frame put_uint64
length-two_frames = refl

store_read_lem_example :
    Returns
      (Store.read (length (frame (7 ∷ []))) (new_store two_frames))
      (λ q t. (q ≡ 8 ∷ []) × Shows t two_frames (length two_frames))
store_read_lem_example =
    store_read_lem (new_store two_frames) (frame (7 ∷ [])) (8 ∷ []) [] (length two_frames)
      (new_store-Shows two_frames) (omega (arith, length-two_frames))

-- An index with room for two entries.
abbrev opened : Index
opened = (new_index_lem toy [] 24 (omega arith) (omega arith) (omega arith)).0

opened-Shows : IndexShows opened [] 24
opened-Shows = (new_index_lem toy [] 24 (omega arith) (omega arith) (omega arith)).2

abbrev first : Index
first = (Index.write 0 0 opened).1

first-Shows : IndexShows first ((0, 0) ∷ []) 24
first-Shows = (write-room opened [] 24 0 0 opened-Shows (omega (arith, opened-Shows.size_lem))).2

abbrev second : Index
second = (Index.write 1 10 first).1

second-Shows : IndexShows second ((0, 0) ∷ (1, 10) ∷ []) 24
second-Shows =
    (write-room first ((0, 0) ∷ []) 24 1 10 first-Shows (omega (arith, first-Shows.size_lem))).2

-- A segment from offset 16 on.
abbrev config : Config
config = record { max_store_bytes = 1000; max_index_bytes = 24; initial_offset = 0 }

made :
    Returns
      (Segment.new_segment toy 16 config empty_dir)
      (λ s d. Holds s [] × (s.base_offset ≡ 16) × (s.config ≡ config))
unfolding lookup
made =
    let (s, e, (h, base, c, _, _, _)) =
      new_segment-fresh toy 16 config empty_dir refl refl refl (omega arith) (omega arith)
        (omega arith) in
    (s, e, (h, base, c))

abbrev empty : Segment
empty = made.0

empty-Holds : Holds empty []
empty-Holds = made.2.0

empty_next : empty.next_offset ≡ 16
empty_next = empty-Holds.next_lem ∙ omega (arith, made.2.1)

empty_limit : empty.config.max_index_bytes ≡ 24
empty_limit = ap (λ (c : Config). c.max_index_bytes) made.2.2

abbrev hello_bytes : ℕ → List ℕ
hello_bytes n = n ∷ 3 ∷ 1 ∷ 104 ∷ 105 ∷ []

abbrev payloads : List Bytes
payloads = hello_bytes empty.next_offset ∷ []

segment_append_lem_example : Returns (Segment.append toy hello empty) (λ off t.
    (off ≡ empty.next_offset)
    × Holds t payloads
    × (t.base_offset ≡ empty.base_offset)
    × (t.config ≡ empty.config))
segment_append_lem_example =
    segment_append_lem toy empty [] hello (hello_bytes empty.next_offset) empty-Holds refl
      (omega (arith, empty_limit)) (omega (arith, ap (λ (b : Bytes). length b) frames-nil))

abbrev written : Segment
written = (Segment.append toy hello empty).1

written_lem : Returns (Segment.append toy hello empty) (λ off t.
    (off ≡ empty.next_offset)
    × Holds t payloads
    × (t.base_offset ≡ empty.base_offset)
    × (t.config ≡ empty.config))
written_lem =
    segment_append_lem toy empty [] hello (hello_bytes empty.next_offset) empty-Holds refl
      (omega (arith, empty_limit)) (omega (arith, ap (λ (b : Bytes). length b) frames-nil))

segment_read_lem_example :
    ((Segment.read toy (written.base_offset + 0) written).0
      ≡ ok (record hello { offset = empty.next_offset }))
    × Holds (Segment.read toy (written.base_offset + 0) written).1 payloads
    × IsSame written (Segment.read toy (written.base_offset + 0) written).1
segment_read_lem_example =
    segment_read_lem toy written payloads 0 (hello_bytes empty.next_offset) written_lem.2.1 refl

new_segment-close_example : Returns (Segment.close toy (written, empty_dir)) (λ _ (t, d).
    Returns (Segment.new_segment toy written.base_offset written.config d) (λ u _.
      Holds u payloads × (u.base_offset ≡ written.base_offset) × (u.config ≡ written.config)))
new_segment-close_example =
    new_segment-close toy written payloads empty_dir written_lem.2.1 refl
      (omega (arith, empty_limit, ap (λ (c : Config). c.max_index_bytes) written_lem.2.3))

-- A segment whose index has no room at all.
abbrev tiny : Config
tiny = record { max_store_bytes = 1000; max_index_bytes = 8; initial_offset = 0 }

stuck_index : Returns (Index.new_index toy 8 (entries [])) (λ i _. IndexShows i [] 8)
stuck_index = new_index_lem toy [] 8 (omega arith) (omega arith) (omega arith)

abbrev stuck : Segment
stuck = record {
  store = new_store [];
  index = stuck_index.0;
  base_offset = 0;
  next_offset = 0;
  config = tiny;
}

stuck-IsStuck : IsStuck stuck
stuck-IsStuck = record {
  no_room = omega (arith, stuck_index.2.cap_lem);
  size_small = omega (arith, stuck_index.2.size_lem);
  not_maxed = omega (arith, stuck_index.2.size_lem);
}

-- ===== src/Raft.antt =====
-- internal/log/distributed.go: the log as Raft's finite-state machine, and as Raft's own log store.
-- The consensus itself is a library's: what it calls is modelled here.
pub mod Snapshot
pub mod Restore
pub mod Commands
pub mod LogStore
pub mod Rounds
pub mod Later
pub mod Agreement
pub mod Entries
use smolkafka.Prelude.{
  ℕ, zero, suc, ◌+◌, ◌-◌, ◌*◌, ◌^◌, Bool, true, false, Option, none, some, List, [], ◌∷◌, ◌++◌, ltb,
  leb, ◌==◌, if◌then◌else◌, length, take, drop,
}
use smolkafka.Exec.{
  Error, Result, ok, err, eof, unexpected_eof, panic, Exec, pure, lift, gets, modify, map_result,
  discard, ◌>>=◌, ◌>>◌,
}
use smolkafka.Bytes.{Bytes, len_width, get_uint}
use smolkafka.Platform.{Platform, Record, ProduceRequest}
use smolkafka.Store
use smolkafka.Store.{Store}
use smolkafka.Segment.{Segment, Config, in_store}
use smolkafka.Log
use smolkafka.Log.{Log}

-- `originReader` of internal/log/log.go: a store and the offset of the next read.
pub record OriginReader : Type 0 where
  pub store : Store
  pub off : ℕ

-- The number of bytes read.
count_of : Result (Bytes × Bool) → ℕ
count_of (ok (p, at_end)) = length p
count_of (err e) = 0

-- `originReader.Read` into `n` bytes, and whether the end was met. Nothing of the program comes to
-- call it.
pub origin_read : ℕ → Exec OriginReader (Bytes × Bool)
origin_read n o =
    let (r, s) = Store.read_at n o.off o.store in
    (r, record { store = s; off = o.off + count_of r })

-- `Persist` of the snapshot that `Snapshot` takes by `Log.Reader`. `io.Copy` has `io.MultiReader`
-- copy its readers one after the other, and an `originReader`, which embeds a store and that a
-- file, is itself an `io.WriterTo`: its `Read` is not called, but the file's `WriteTo`.
pub persist_segments : Exec (List Segment) Bytes
persist_segments [] = (ok [], [])
persist_segments (s ∷ ss) =
    let (r, st) = Store.write_to s.store in
    let s' : Segment = record s { store = st } in
    let (q, ss') = persist_segments ss in
    elim r [ ok p ↦ (map_result (λ rest. p ++ rest) q, s' ∷ ss') | err e ↦ (err e, s' ∷ ss) ]

pub persist : Exec Log Bytes
persist l = let (r, ss) = persist_segments l.segments in (r, record l { segments = ss })

-- What `Restore` reads in a round from what is left: the end, or a payload and the rest. An `int64`
-- size below zero copies nothing.
pub next_frame : Bytes → Result (Option (Bytes × Bytes))
next_frame stream =
    let rest = drop len_width stream in
    let size = get_uint (take len_width stream) in
    if length stream == 0
    then ok none
    else if ltb (length stream) len_width
    then err unexpected_eof
    else if leb (2 ^ 63) size
    then ok (some ([], rest))
    else if ltb (length rest) size
    then err eof
    else ok (some (take size rest, drop size rest))

-- What a command does to the machine, beside the log that it leaves.
pub data Reply : Type 0 where
  response : ℕ → Reply
  failure : Error → Reply
  nothing : Reply

pub reply_of : Result ℕ → Reply
reply_of (ok off) = response off
reply_of (err e) = failure e

module _ (os : Platform) where
  -- `applyAppend`. A request without a record is a nil pointer, which the append dereferences.
  pub append_record : Option Record → Exec Log ℕ
  append_record none l = (err panic, l)
  append_record (some r) l = Log.append os r l

  pub apply_append : Bytes → Log → Reply × Log
  apply_append b l =
      let (r, l') = (lift (os.unmarshal_request b) >>= λ req. append_record req.record_field) l in
      (reply_of r, l')

  -- `fsm.Apply`
  pub fsm_apply : Bytes → Log → Reply × Log
  fsm_apply [] l = (failure panic, l)
  fsm_apply (req_type ∷ b) l = if req_type == 0 then apply_append b l else (nothing, l)

  -- The command that `apply` makes of a request, with the type for an append before it.
  abbrev pub command_of : Option Record → Result Bytes
  command_of o = elim (os.marshal_request (record { record_field = o })) [
    | ok b ↦ ok (0 ∷ b)
    | err e ↦ err e
  ]

  -- The command that `DistributedLog.Append` hands to Raft.
  unfoldable pub append_command : Record → Result Bytes
  append_command r = command_of (some r)

  -- A round of `Restore` with the record that was read, the first round or a later one.
  restore_record : Bool → Record → Exec Log Unit
  restore_record true r = do
    modify (λ l. record l { config = record l.config { initial_offset = r.offset } })
    Log.reset os
    discard (Log.append os r)
  restore_record false r = discard (Log.append os r)

  -- The loop of `Restore`, with fuel: a round takes eight bytes at least.
  pub restore_loop : ℕ → Bool → Bytes → Exec Log Unit
  restore_loop zero first stream l = (err panic, l)
  restore_loop (suc fuel) first stream l = elim (next_frame stream) [
    | err e ↦ (err e, l)
    | ok none ↦ (ok tt, l)
    | ok (some (p, rest)) ↦
        (do r ← lift (os.unmarshal p); restore_record first r; restore_loop fuel false rest) l
  ]

  -- `fsm.Restore`
  pub restore : Bytes → Exec Log Unit
  restore stream = restore_loop (suc (length stream)) true stream

-- `raft.Log`, the fields that the log store keeps.
pub record RaftLog : Type 0 where
  pub index : ℕ
  pub term : ℕ
  pub type : ℕ
  pub content : Bytes

-- `logStore.FirstIndex` and `LastIndex`
pub first_index : Log → Result ℕ
first_index l = Log.lowest_offset l

pub last_index : Log → Result ℕ
last_index l = Log.highest_offset l

-- The record that `StoreLogs` appends, and what `GetLog` makes of a record.
unfoldable pub record_of : RaftLog → Record
record_of e = record { value = e.content; offset = 0; term = e.term; type = e.type }

pub raft_log_of : Record → RaftLog
raft_log_of r = record { index = r.offset; term = r.term; type = r.type; content = r.value }

module _ (os : Platform) where
  -- `GetLog`
  pub get_log : ℕ → Exec Log RaftLog
  get_log index = do r ← Log.read os index; pure (raft_log_of r)

  -- `StoreLogs`, and `StoreLog` of one.
  pub store_logs : List RaftLog → Exec Log Unit
  store_logs [] = pure tt
  store_logs (e ∷ es) = do discard (Log.append os (record_of e)); store_logs es

  pub store_log : RaftLog → Exec Log Unit
  store_log e = store_logs (e ∷ [])

  -- `DeleteRange`
  pub delete_range : ℕ → ℕ → Exec Log Unit
  delete_range min max = Log.truncate os max

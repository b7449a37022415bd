-- ===== src/Raft/Restore.antt =====
-- `Restore`: the framing that it reads, and what becomes of it.
use smolkafka.Prelude.{
  ℕ, ◌^◌, ◌<◌, ◌≡◌, ◌≢◌, refl, inl, inr, none, some, [], ◌∷◌, ◌++◌, append_assoc, arith, length,
  length-append, take, drop, take-append, drop-append,
}
use smolkafka.Exec.{ok, Result-cases}
use smolkafka.Bytes.{Bytes, put_uint64, length-put_uint64, get_uint-put_uint64}
use smolkafka.Store.Frames.{frame}
use smolkafka.Platform.{Platform}
use smolkafka.Log
use smolkafka.Log.{Log}
use smolkafka.Log.Reset.{reset-fails}
use smolkafka.Raft.{next_frame, restore_record, restore_loop, restore}

-- A round of `Restore` reads back the frame of a payload that is shorter than 2 ^ 63 bytes, and
-- leaves what follows it.
pub next_frame-frame :
    (p rest : Bytes) → length p < 2 ^ 63 → next_frame (frame p ++ rest) ≡ ok (some (p, rest))
unfolding next_frame
next_frame-frame p rest small =
    let header = put_uint64 (length p) in
    let whole : frame p ++ rest ≡ header ++ (p ++ rest) =
      unfold frame in append_assoc header p rest in
    let eight = length-put_uint64 (length p) in
    let head_lem : take 8 (header ++ (p ++ rest)) ≡ header =
      take-append 8 header (p ++ rest) eight in
    let rest_lem : drop 8 (header ++ (p ++ rest)) ≡ p ++ rest =
      drop-append 8 header (p ++ rest) eight in
    let size = get_uint-put_uint64 (length p) (omega arith) in
    rw (whole, head_lem, rest_lem, size)
      (ground (
        arith,
        eight,
        length-append header (p ++ rest),
        length-append p rest,
        take-append (length p) p rest refl,
        drop-append (length p) p rest refl,
      ))

some_left : (b : ℕ) (bs : Bytes) → next_frame (b ∷ bs) ≢ ok none
unfolding next_frame
some_left b bs = ground arith

-- The log with the configuration that the first record of a snapshot calls for.
abbrev pub starting_at : ℕ → Log → Log
starting_at off l = record l { config = record l.config { initial_offset = off } }

module _ (os : Platform) where
  -- No `Restore` of a snapshot that is not empty succeeds, whatever the log.
  pub restore-fails : (stream : Bytes) (l : Log) → stream ≢ [] → (restore os stream l).0 ≢ ok tt
  unfolding restore restore_loop restore_record
  restore-fails [] l left e = absurd (left refl)
  restore-fails (b ∷ bs) l left e = elim (Result-cases (next_frame (b ∷ bs))) [
    | inl (none, r) ↦ absurd (some_left b bs r)
    | inl (some (p, rest), r) ↦ elim (Result-cases (os.unmarshal p)) [
      | inl (first, m) ↦ elim (Result-cases (Log.reset os (starting_at first.offset l)).0) [
        | inl (u, ok_reset) ↦ absurd (reset-fails os (starting_at first.offset l) ok_reset)
        | inr (x, failed) ↦ cc (rw (r, m, failed, restore, restore_loop) at e)
      ]
      | inr (x, m) ↦ cc (rw (r, m, restore, restore_loop) at e)
    ]
    | inr (x, r) ↦ cc (rw (r, restore, restore_loop) at e)
  ]

-- ===== src/Raft/Rounds.antt =====
-- The loop of `Restore` comes to an end, by the rounds that its stream calls for.
use smolkafka.Prelude.{
  ℕ, zero, suc, ◌^◌, ◌≤◌, ◌<◌, ◌==◌, ◌≡◌, refl, ap, sym, ◌∙◌, inl, inr, Bool, true, false, Option,
  none, some, [], ◌∷◌, ◌++◌, arith, length, length-append, take, drop, ltb, leb, Bool-cases,
  length-take, take-append-drop,
}
use smolkafka.Exec.{Error, Result, ok, err, eof, unexpected_eof, Result-cases, ◌>>◌}
use smolkafka.Bytes.{Bytes, get_uint}
use smolkafka.Platform.{Platform, Record}
use smolkafka.Log
use smolkafka.Log.{Log}
use smolkafka.Log.Reset.{reset-fails}
use smolkafka.Raft.{next_frame, restore_record, restore_loop}
use smolkafka.Raft.Restore.{starting_at}

-- How a stream begins: it is at its end, it breaks off in a header of eight bytes or in the payload
-- behind it, or it has a payload, which is empty where the header's size is below zero as an `int64`.
pub data Frame (stream : Bytes) : Result (Option (Bytes × Bytes)) → Type 0 where
  ended : stream ≡ [] → Frame stream (ok none)
  cut_header : 0 < length stream → length stream < 8 → Frame stream (err unexpected_eof)
  cut_payload :
      (header rest : Bytes)
      → stream ≡ header ++ rest
      → length header ≡ 8
      → length rest < get_uint header
      → get_uint header < 2 ^ 63
      → Frame stream (err eof)
  negative :
      (header rest : Bytes)
      → stream ≡ header ++ rest
      → length header ≡ 8
      → 2 ^ 63 ≤ get_uint header
      → Frame stream (ok (some ([], rest)))
  whole :
      (header p rest : Bytes)
      → stream ≡ header ++ (p ++ rest)
      → length header ≡ 8
      → get_uint header ≡ length p
      → length p < 2 ^ 63
      → Frame stream (ok (some (p, rest)))

next_frame-Frame : (stream : Bytes) → Frame stream (next_frame stream)
unfolding next_frame
next_frame-Frame [] = ended refl
next_frame-Frame (b ∷ bs) =
    let stream : Bytes = b ∷ bs in
    let rest = drop 8 stream in
    let size = get_uint (take 8 stream) in
    let split = sym (take-append-drop 8 stream) in
    let left : (length stream == 0) ≡ false = ground arith in
    elim (Bool-cases (ltb (length stream) 8)) [
      | inl short ↦ rw (left, short) (cut_header (omega arith) (ground (arith, short)))
      | inr long ↦
          let eight : length (take 8 stream) ≡ 8 = length-take 8 stream (ground (arith, long)) in
          elim (Bool-cases (leb (2 ^ 63) size)) [
            | inl below ↦
                rw (left, long, below)
                  (negative (take 8 stream) rest split eight (ground (arith, below)))
            | inr small ↦ elim (Bool-cases (ltb (length rest) size)) [
              | inl cut ↦
                  rw (left, long, small, cut)
                    (cut_payload (take 8 stream) rest split eight (ground (arith, cut))
                      (ground (arith, small)))
              | inr enough ↦
                  let all : length (take size rest) ≡ size =
                    length-take size rest (ground (arith, enough)) in
                  rw (left, long, small, enough)
                    (whole (take 8 stream) (take size rest) (drop size rest)
                      (split ∙ ap (λ t. take 8 stream ++ t) (sym (take-append-drop size rest)))
                      eight (sym all) (ground (arith, small, all)))
            ]
          ]
    ]

Frame-shrinks :
    {stream p rest : Bytes} → Frame stream (ok (some (p, rest))) → length rest < length stream
Frame-shrinks (negative header rest e eight size) =
    omega (arith, eight, ap length e, length-append header rest)
Frame-shrinks (whole header p rest e eight size small) =
    omega (arith, eight, ap length e, length-append header (p ++ rest), length-append p rest)

module _ (os : Platform) where
  -- The rounds of `Restore` on a stream, the first one or a later one, and what they return and leave.
  -- The first one sets the configuration and resets the log, and a later one appends.
  pub data Rounds : Bool → Bytes → Log → Result (Unit {0}) → Log → Type 0 where
    at_end :
        {first : Bool} {stream : Bytes} {l : Log}
        → Frame stream (ok none)
        → Rounds first stream l (ok tt) l
    broken :
        {first : Bool} {stream : Bytes} {l : Log} {e : Error}
        → Frame stream (err e)
        → Rounds first stream l (err e) l
    no_record :
        {first : Bool} {stream p rest : Bytes} {l : Log} {e : Error}
        → Frame stream (ok (some (p, rest)))
        → os.unmarshal p ≡ err e
        → Rounds first stream l (err e) l
    no_reset :
        {stream p rest : Bytes} {r : Record} {l : Log} {e : Error}
        → Frame stream (ok (some (p, rest)))
        → os.unmarshal p ≡ ok r
        → (Log.reset os (starting_at r.offset l)).0 ≡ err e
        → Rounds true stream l (err e) (Log.reset os (starting_at r.offset l)).1
    no_append :
        {stream p rest : Bytes} {r : Record} {l : Log} {e : Error}
        → Frame stream (ok (some (p, rest)))
        → os.unmarshal p ≡ ok r
        → (Log.append os r l).0 ≡ err e
        → Rounds false stream l (err e) (Log.append os r l).1
    appended :
        {stream p rest : Bytes} {r : Record} {l m : Log} {off : ℕ} {x : Result (Unit {0})}
        → Frame stream (ok (some (p, rest)))
        → os.unmarshal p ≡ ok r
        → (Log.append os r l).0 ≡ ok off
        → Rounds false rest (Log.append os r l).1 x m
        → Rounds false stream l x m

  -- A round with a record, if the loop makes the rounds behind it.
  restore_loop-round :
      (fuel : ℕ) (first : Bool) (stream p rest : Bytes) (r : Record) (l : Log)
      → Frame stream (ok (some (p, rest)))
      → os.unmarshal p ≡ ok r
      → ((k : Log)
          → Rounds false rest k
              (restore_loop os fuel false rest k).0
              (restore_loop os fuel false rest k).1)
      → Rounds first stream l
          ((restore_record os first r >> restore_loop os fuel false rest) l).0
          ((restore_record os first r >> restore_loop os fuel false rest) l).1
  unfolding restore_record
  restore_loop-round fuel true stream p rest r l begins m others =
      elim (Result-cases (Log.reset os (starting_at r.offset l)).0) [
        | inl (u, done) ↦ absurd (reset-fails os (starting_at r.offset l) done)
        | inr (e, failed) ↦ rw failed (no_reset begins m failed)
      ]
  restore_loop-round fuel false stream p rest r l begins m others =
      elim (Result-cases (Log.append os r l).0) [
        | inl (off, done) ↦ rw done (appended begins m done (others (Log.append os r l).1))
        | inr (e, failed) ↦ rw failed (no_append begins m failed)
      ]

  -- The loop of `Restore` comes to an end: with fuel for more rounds than the stream has bytes,
  -- which is what `restore` gives it, it makes the rounds that the stream calls for, a first one
  -- that never gets past its `Reset` or later ones that append. It returns no error where it meets
  -- the end of the stream, and otherwise that of the frame that is cut off, of the payload that is
  -- no record, of the `Reset` or of the append that fails, with the log as that leaves it.
  pub restore_loop-Rounds :
      (fuel : ℕ) (first : Bool) (stream : Bytes) (l : Log)
      → length stream < fuel
      → Rounds first stream l
          (restore_loop os fuel first stream l).0
          (restore_loop os fuel first stream l).1
  unfolding restore_loop restore_record
  restore_loop-Rounds zero first stream l enough = absurd (omega arith)
  restore_loop-Rounds (suc fuel) first stream l enough =
      let frame = next_frame-Frame stream in
      elim (Result-cases (next_frame stream)) [
        | inr (x, r) ↦ rw (r, restore_loop) (broken (rw r at frame))
        | inl (none, r) ↦ rw (r, restore_loop) (at_end (rw r at frame))
        | inl (some (p, rest), r) ↦
            let begins : Frame stream (ok (some (p, rest))) = rw r at frame in
            elim (Result-cases (os.unmarshal p)) [
              | inr (x, m) ↦ rw (r, m, restore_loop) (no_record begins m)
              | inl (rec, m) ↦
                  rw (r, m, restore_loop)
                    (restore_loop-round fuel first stream p rest rec l begins m (λ k.
                      restore_loop-Rounds fuel false rest k
                        (omega (arith, enough, Frame-shrinks begins))))
            ]
      ]

-- ===== src/Raft/Commands.antt =====
-- `DistributedLog.Append` and `fsm.Apply`: what a command does once Raft has committed it.
use mathlib.Core.Path.{subst}
use smolkafka.Prelude.{
  ℕ, ◌+◌, ◌^◌, ◌<◌, ◌≡◌, ◌≢◌, refl, ap, sym, ◌∙◌, inl, inr, Option, none, some, List, [], ◌∷◌, ◌++◌,
  arith, length,
}
use smolkafka.Exec.{Result, ok, err, panic, Result-cases}
use smolkafka.Bytes.{Bytes}
use smolkafka.Platform.{Platform, Record}
use smolkafka.Log
use smolkafka.Log.{Log}
use smolkafka.Log.Holds.{Holds}
use smolkafka.Log.Suits.{Suits}
use smolkafka.Log.Append.{log_append_lem}
use smolkafka.Raft.{
  Reply, response, failure, nothing, reply_of, append_record, apply_append, fsm_apply, command_of,
  append_command,
}

module _ (os : Platform) where
  -- The command of a request, applied by the machine, is the append of the request's record.
  fsm_apply-command_of :
      (o : Option Record) (b : Bytes) (l : Log)
      → command_of os o ≡ ok b
      → fsm_apply os b l ≡ (reply_of (append_record os o l).0, (append_record os o l).1)
  unfolding fsm_apply apply_append
  fsm_apply-command_of o b l e =
      elim (Result-cases (os.marshal_request (record { record_field = o }))) [
        | inl (m, made) ↦
            let is : ok (0 ∷ m) ≡ ok b = rw (made, command_of) at e in
            subst
              (λ c.
                fsm_apply os c l ≡ (reply_of (append_record os o l).0, (append_record os o l).1))
              (ap (λ (x : Result Bytes). elim x [ ok y ↦ y | err _ ↦ b ]) is)
              (rw (os.unmarshal-marshal_request (record { record_field = o }) m made) refl)
        | inr (x, failed) ↦ cc (rw (failed, command_of) at e)
      ]

  -- The command that `DistributedLog.Append` makes of a record, applied by the machine, is the
  -- append of that record to the log, and the reply says what the append returned, an error
  -- included.
  pub fsm_apply-append_command :
      (r : Record) (b : Bytes) (l : Log)
      → append_command os r ≡ ok b
      → fsm_apply os b l ≡ (reply_of (Log.append os r l).0, (Log.append os r l).1)
  unfolding append_command append_record
  fsm_apply-append_command r b l e = fsm_apply-command_of (some r) b l e

  -- The machine replies to the command of a record with the next offset of its log, which then
  -- holds the payload behind all else, under the conditions of the log's `Append`.
  pub fsm_apply-Holds :
      (r : Record) (b p : Bytes) (l : Log) (base : ℕ) (fs : List Bytes)
      → append_command os r ≡ ok b
      → Holds l base fs
      → Suits l.config fs
      → os.marshal (record r { offset = base + length fs }) ≡ ok p
      → l.config.max_store_bytes + length p + 8 < 2 ^ 63
      → base + length fs + 1 < 2 ^ 63
      → ((fsm_apply os b l).0 ≡ response (base + length fs))
        × Holds (fsm_apply os b l).1 base (fs ++ (p ∷ []))
  unfolding reply_of
  fsm_apply-Holds r b p l base fs e h suits m store_small small =
      let applied = fsm_apply-append_command r b l e in
      let (off, returned, (at, holds, _)) =
        log_append_lem os l base fs r p h suits m store_small small in
      (
        ap (λ (x : Reply × Log). x.0) applied ∙ ap reply_of returned ∙ ap response at,
        subst (λ (x : Reply × Log). Holds x.1 base (fs ++ (p ∷ []))) (sym applied) holds,
      )

  -- A command of an unknown type changes nothing, and has no reply.
  pub fsm_apply-unknown :
      (req_type : ℕ) (b : Bytes) (l : Log)
      → req_type ≢ 0
      → fsm_apply os (req_type ∷ b) l ≡ (nothing, l)
  unfolding fsm_apply
  fsm_apply-unknown req_type b l other = ground arith

  -- The command of a request without a record, once committed, makes the machine of every server
  -- panic, whatever its log.
  pub fsm_apply-no_record :
      (b : Bytes) (l : Log) → command_of os none ≡ ok b → fsm_apply os b l ≡ (failure panic, l)
  unfolding append_record reply_of
  fsm_apply-no_record b l e = fsm_apply-command_of none b l e

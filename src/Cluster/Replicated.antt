-- ===== src/Cluster/Replicated.antt =====
-- `DistributedLog.Append`: through Raft to the log of the machine.
use mathlib.Core.Path.{subst}
use smolkafka.Prelude.{ℕ, ◌+◌, ◌^◌, ◌<◌, ◌≡◌, refl, ap, sym, ◌∙◌, List, [], ◌∷◌, ◌++◌, length}
use smolkafka.Exec.{ok}
use smolkafka.Bytes.{Bytes}
use smolkafka.Platform.{Platform, Record}
use smolkafka.Log.{Log}
use smolkafka.Log.Holds.{Holds}
use smolkafka.Log.Suits.{Suits}
use smolkafka.Raft.{fsm_apply, append_command}
use smolkafka.Raft.Commands.{fsm_apply-Holds}
use smolkafka.Cluster.{Raft, offset_of, append}

module _ {S : Type 0} (raft : Raft S) (os : Platform) (machine : S → Log) where
  -- On a leader, whose `Apply` gives the command to the machine and returns its reply, `Append`
  -- returns the next offset of the machine's log, and the log then holds the record's payload
  -- behind all else, where the log's limits suit the payloads that it holds, the record is
  -- marshalled to a command and to a payload, and the store and the offset stay below 2 ^ 63.
  pub replicated_append :
      (r : Record) (b p : Bytes) (s : S) (base : ℕ) (fs : List Bytes)
      → (raft.apply b s).0 ≡ ok (fsm_apply os b (machine s)).0
      → machine (raft.apply b s).1 ≡ (fsm_apply os b (machine s)).1
      → append_command os r ≡ ok b
      → Holds (machine s) base fs
      → Suits (machine s).config fs
      → os.marshal (record r { offset = base + length fs }) ≡ ok p
      → (machine s).config.max_store_bytes + length p + 8 < 2 ^ 63
      → base + length fs + 1 < 2 ^ 63
      → ((append raft os r s).0 ≡ ok (base + length fs))
        × Holds (machine (append raft os r s).1) base (fs ++ (p ∷ []))
  unfolding append offset_of
  replicated_append r b p s base fs replies runs e h suits m store_small small =
      let (reply, holds) =
        fsm_apply-Holds os r b p (machine s) base fs e h suits m store_small small in
      rw (e, replies ∙ ap ok reply)
        (refl, subst (λ l. Holds l base (fs ++ (p ∷ []))) (sym runs) holds)

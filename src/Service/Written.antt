-- ===== src/Service/Written.antt =====
-- What a client writes by `Produce` and reads by `Consume`, through the service, Raft and the log.
use smolkafka.Prelude.{
  ℕ, ◌+◌, ◌^◌, ◌<◌, ◌≡◌, refl, ap, ◌∙◌, Bool, true, some, List, [], ◌∷◌, ◌++◌, length,
  get_elem?-append_end,
}
use smolkafka.Exec.{Result, ok}
use smolkafka.Bytes.{Bytes}
use smolkafka.Disk.{Name}
use smolkafka.Platform.{Platform, Record}
use smolkafka.Log.Holds.{Holds}
use smolkafka.Log.Suits.{Suits}
use smolkafka.Log.Read.{log_read_lem}
use smolkafka.Raft.{fsm_apply, append_command}
use smolkafka.Cluster
use smolkafka.Cluster.{Raft}
use smolkafka.Cluster.Replicated.{replicated_append}
use smolkafka.Server.{produce, consume, object_wildcard, produce_action}
use smolkafka.Server.Access.{permitted_lem}
use smolkafka.Service.{Machine, append_option, read_own, commit_log}

module _ {S : Type 0} (raft : Raft S) (os : Platform) (machine : Machine S)
    (enforce : Name → Name → Name → Bool) (subject : Name) where
  -- What a client writes it reads: on a leader whose `Apply` gives the command to the machine and
  -- returns its reply, `Produce` by a subject that may produce returns the next offset of the log,
  -- and `Consume` of that offset by the same subject then returns the record with that offset for
  -- its own, where the log's limits suit the payloads that it holds, the record is marshalled to a
  -- command and to a payload, and the store and the offset stay below 2 ^ 63.
  pub consume-produce :
      (r : Record) (b p : Bytes) (s : S) (base : ℕ) (fs : List Bytes)
      → enforce subject object_wildcard produce_action ≡ true
      → (raft.apply b s).0 ≡ ok (fsm_apply os b (machine.get s)).0
      → machine.get (raft.apply b s).1 ≡ (fsm_apply os b (machine.get s)).1
      → append_command os r ≡ ok b
      → Holds (machine.get s) base fs
      → Suits (machine.get s).config fs
      → os.marshal (record r { offset = base + length fs }) ≡ ok p
      → (machine.get s).config.max_store_bytes + length p + 8 < 2 ^ 63
      → base + length fs + 1 < 2 ^ 63
      → let (x, s') = produce (commit_log raft os machine) enforce subject (some r) s in
        (x ≡ ok (base + length fs))
        × ((consume (commit_log raft os machine) enforce subject (base + length fs) s').0
            ≡ ok (record r { offset = base + length fs }))
  unfolding commit_log append_option read_own Cluster.read
  consume-produce r b p s base fs allowed replies runs e h suits m room small =
      let (produced, _) =
        permitted_lem (commit_log raft os machine) enforce subject (some r) 0 s allowed in
      let s' = (Cluster.append raft os r s).1 in
      let (_, consumed) =
        permitted_lem (commit_log raft os machine) enforce subject (some r) (base + length fs) s'
          allowed in
      let (offset, holds) =
        replicated_append raft os machine.get r b p s base fs replies runs e h suits m room small in
      let (got, _, _) =
        log_read_lem os (machine.get s') base (length fs) (fs ++ (p ∷ [])) p holds
          (get_elem?-append_end fs p (length fs) refl) in
      let log = commit_log raft os machine in
      (
        ap (λ (x : Result ℕ × S). x.0) produced ∙ offset,
        ap (λ (x : Result ℕ × S). (consume log enforce subject (base + length fs) x.1).0) produced
            ∙ ap (λ (x : Result Record × S). x.0) consumed
            ∙ got
            ∙ os.unmarshal-marshal (record r { offset = base + length fs }) p m,
      )

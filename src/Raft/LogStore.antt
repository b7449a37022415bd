-- ===== src/Raft/LogStore.antt =====
-- `logStore`: Raft's own log, kept in a `Log`.
use smolkafka.Prelude.{
  ℕ, ◌+◌, ◌^◌, ◌<◌, ◌≤◌, ◌≡◌, refl, List, [], ◌∷◌, ◌++◌, length, get_elem?-append_end,
}
use smolkafka.Exec.{ok, err, panic, offset_out_of_range}
use smolkafka.Exec.Returns.{Returns}
use smolkafka.Bytes.{Bytes}
use smolkafka.Platform.{Platform}
use smolkafka.Log
use smolkafka.Log.{Log}
use smolkafka.Log.Holds.{Holds}
use smolkafka.Log.Suits.{Suits}
use smolkafka.Log.Append.{log_append_lem}
use smolkafka.Log.Read.{log_read_lem}
use smolkafka.Log.Truncate.{truncate-all}
use smolkafka.Raft.{
  RaftLog, first_index, last_index, record_of, raft_log_of, get_log, store_logs, store_log,
  delete_range,
}

module _ (os : Platform) where
  -- An entry of Raft's log that was stored, under the conditions of the log's `Append`, is got
  -- back under the index that the log gave it, with its data, its type and its term.
  pub get_log-store_log :
      (l : Log) (base : ℕ) (fs : List Bytes) (e : RaftLog) (p : Bytes)
      → Holds l base fs
      → Suits l.config fs
      → os.marshal (record (record_of e) { offset = base + length fs }) ≡ ok p
      → l.config.max_store_bytes + length p + 8 < 2 ^ 63
      → base + length fs + 1 < 2 ^ 63
      → Returns (store_log os e l) (λ _ l'.
        (get_log os (base + length fs) l').0 ≡ ok (record e { index = base + length fs }))
  unfolding store_log store_logs get_log raft_log_of record_of
  get_log-store_log l base fs e p h suits m store_small small =
      let (off, stored, (at, holds, _)) =
        log_append_lem os l base fs (record_of e) p h suits m store_small small in
      let l' = (Log.append os (record_of e) l).1 in
      let (got, _, _) =
        log_read_lem os l' base (length fs) (fs ++ (p ∷ [])) p holds
          (get_elem?-append_end fs p (length fs) refl) in
      let back = os.unmarshal-marshal (record (record_of e) { offset = base + length fs }) p m in
      rw stored (tt, refl, rw (got, back) refl)

  -- `DeleteRange` up to the last index or above, which is how Raft removes the end of its log that
  -- another leader's entries replace, removes every entry of a store that holds some, whatever
  -- index it begins at: `FirstIndex` and `LastIndex` then panic, and `GetLog` of every index
  -- fails.
  pub delete_range-all :
      (l : Log) (base min max : ℕ) (fs : List Bytes)
      → Holds l base fs
      → max + 1 < 2 ^ 64
      → base + length fs ≤ max + 1
      → Returns (delete_range os min max l) (λ _ l'.
        (first_index l' ≡ err panic)
        × (last_index l' ≡ err panic)
        × ((index : ℕ) → (get_log os index l').0 ≡ err (offset_out_of_range index)))
  unfolding delete_range first_index last_index get_log
  delete_range-all l base min max fs h small above =
      let (u, cut, (lowest, highest, gone)) = truncate-all os l base max fs h small above in
      (u, cut, (lowest, highest, λ index. rw (gone index) refl))

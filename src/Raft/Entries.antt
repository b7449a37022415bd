-- ===== src/Raft/Entries.antt =====
-- `StoreLogs`: a batch of Raft's entries, and what is got back of it.
use mathlib.Core.Path.{subst}
use smolkafka.Prelude.{
  ℕ, zero, suc, ◌+◌, ◌^◌, ◌<◌, ◌≡◌, refl, ap, sym, ◌∙◌, Option, some, none, List, [], ◌∷◌, ◌++◌,
  append-nil, append_assoc, arith, length, length-append, get_elem?, get_elem?-append_right,
}
use smolkafka.Exec.{ok}
use smolkafka.Exec.Returns.{Returns}
use smolkafka.Bytes.{Bytes}
use smolkafka.Platform.{Platform}
use smolkafka.Segment.{Config}
use smolkafka.Log
use smolkafka.Log.{Log}
use smolkafka.Log.Holds.{Holds}
use smolkafka.Log.Suits.{Suits, Suits-left}
use smolkafka.Log.Append.{log_append_lem}
use smolkafka.Log.Read.{log_read_lem}
use smolkafka.Raft.{RaftLog, record_of, raft_log_of, get_log, store_logs}

module _ (os : Platform) where
  -- The entries are marshalled to `ps` from the index `n` on, with room for each in a log that is so
  -- configured.
  abbrev pub AreEntries : Config → ℕ → List RaftLog → List Bytes → Type 0
  AreEntries c n [] [] = Unit
  AreEntries c n (e ∷ es) (p ∷ ps) =
      (os.marshal (record (record_of e) { offset = n }) ≡ ok p)
      × (c.max_store_bytes + length p + 8 < 2 ^ 63)
      × (n + 1 < 2 ^ 63)
      × AreEntries c (n + 1) es ps
  AreEntries c n _ _ = ⊥

  store_logs-Holds :
      (c : Config) (n : ℕ) (es : List RaftLog) (ps : List Bytes) (l : Log) (base : ℕ)
      (fs : List Bytes)
      → Holds l base fs
      → l.config ≡ c
      → Suits c (fs ++ ps)
      → n ≡ base + length fs
      → AreEntries c n es ps
      → Returns (store_logs os es l) (λ _ l'. Holds l' base (fs ++ ps))
  unfolding store_logs
  store_logs-Holds c n [] [] l base fs h same suits here are =
      (tt, refl, subst (Holds l base) (sym (append-nil fs)) h)
  store_logs-Holds c n [] (p ∷ ps) l base fs h same suits here are = absurd are
  store_logs-Holds c n (e ∷ es) [] l base fs h same suits here are = absurd are
  store_logs-Holds c n (e ∷ es) (p ∷ ps) l base fs h same suits here (m, room, small, are) =
      let (off, stored, (at, holds, kept)) =
        log_append_lem os l base fs (record_of e) p h
          (subst (λ k. Suits k fs) (sym same) (Suits-left c fs (p ∷ ps) suits))
          (ap (λ k. os.marshal (record (record_of e) { offset = k })) (sym here) ∙ m)
          (omega (arith, room, ap (λ (k : Config). k.max_store_bytes) same)) (omega arith) in
      let l' = (Log.append os (record_of e) l).1 in
      let (u, others, all) =
        store_logs-Holds c (n + 1) es ps l' base (fs ++ (p ∷ [])) holds (kept ∙ same)
          (subst (Suits c) (sym (append_assoc fs (p ∷ []) ps)) suits)
          (omega (arith, here, length-append fs (p ∷ []))) are in
      rw stored
        (u, others, subst (Holds (store_logs os es l').1 base) (append_assoc fs (p ∷ []) ps) all)

  -- The payload of an entry.
  entry_at :
      (c : Config) (n i : ℕ) (es : List RaftLog) (ps : List Bytes) (e : RaftLog)
      → AreEntries c n es ps
      → get_elem? es i ≡ some e
      → (p : Bytes) × (get_elem? ps i ≡ some p)
        × (os.marshal (record (record_of e) { offset = n + i }) ≡ ok p)
  entry_at c n i [] ps e are at = cc
  entry_at c n i (f ∷ es) [] e are at = absurd are
  entry_at c n zero (f ∷ es) (p ∷ ps) e (m, _, _, are) at = (
    p,
    refl,
    ap (λ k. os.marshal (record (record_of e) { offset = k })) (omega arith)
        ∙ ap (λ g. os.marshal (record (record_of g) { offset = n })) (sym (same_entry at))
        ∙ m,
  )
    where
      same_entry : some f ≡ some e → f ≡ e
      same_entry h = ap (λ (o : Option RaftLog). elim o [ some g ↦ g | none ↦ e ]) h
  entry_at c n (suc i) (f ∷ es) (p ∷ ps) e (m, _, _, are) at =
      let (q, found, made) = entry_at c (n + 1) i es ps e are at in
      (q, found, ap (λ k. os.marshal (record (record_of e) { offset = k })) (omega arith) ∙ made)

  -- Of a batch of entries of Raft's log that was stored, with room for each, every one is got back
  -- under the index that the log gave it, with its data, its type and its term.
  pub get_log-store_logs :
      (l : Log) (base i : ℕ) (fs : List Bytes) (es : List RaftLog) (ps : List Bytes) (e : RaftLog)
      → Holds l base fs
      → Suits l.config (fs ++ ps)
      → AreEntries l.config (base + length fs) es ps
      → get_elem? es i ≡ some e
      → Returns (store_logs os es l) (λ _ l'.
        (get_log os (base + length fs + i) l').0 ≡ ok (record e { index = base + length fs + i }))
  unfolding get_log raft_log_of record_of
  get_log-store_logs l base i fs es ps e h suits are at =
      let (p, found, made) = entry_at l.config (base + length fs) i es ps e are at in
      let (u, stored, holds) =
        store_logs-Holds l.config (base + length fs) es ps l base fs h refl suits refl are in
      let l' = (store_logs os es l).1 in
      let (got, _, _) = log_read_lem os l' base (length fs + i) (fs ++ ps) p holds (
        get_elem?-append_right fs ps (length fs + i) (omega arith)
        ∙ ap (get_elem? ps) (omega arith)
        ∙ found) in
      let read_back : (Log.read os (base + length fs + i) l').0
          ≡ ok (record (record_of e) { offset = base + length fs + i }) =
        ap (λ k. (Log.read os k l').0) (omega arith)
        ∙ got
        ∙ os.unmarshal-marshal (record (record_of e) { offset = base + length fs + i }) p made in
      (u, stored, rw read_back refl)

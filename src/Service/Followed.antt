-- ===== src/Service/Followed.antt =====
-- What `ConsumeStream` sends of the distributed log while the server's machine appends to it.
use mathlib.Core.Path.{subst}
use smolkafka.Prelude.{
  ℕ, zero, suc, ◌+◌, ◌^◌, ◌<◌, ◌≤◌, ◌≡◌, refl, ap, ◌∙◌, sym, inr, Bool, true, some, List, [], ◌∷◌,
  ◌++◌, take, drop, arith, length, get_elem?,
}
use smolkafka.Exec.{Result, ok}
use smolkafka.Bytes.{Bytes}
use smolkafka.Disk.{Name}
use smolkafka.Platform.{Platform, Record}
use smolkafka.Segment.{Config}
use smolkafka.Log
use smolkafka.Log.{Log}
use smolkafka.Log.Holds.{Holds}
use smolkafka.Log.Read.{log_read_lem, log_read-past}
use smolkafka.Cluster
use smolkafka.Cluster.{Raft}
use smolkafka.Server.{Turn, object_wildcard, produce_action, consume_stream}
use smolkafka.Server.Following.{Shows, OnlyAppend, AsFollowed, consume_stream-Followed}
use smolkafka.Server.CatchingUp.{AllServed, consume_stream-AllServed}
use smolkafka.Service.{Machine, read_own, commit_log}

module _ (os : Platform) where
  -- The records that the payloads are unmarshalled to.
  abbrev pub Decoded : List Bytes → List Record → Type 0
  Decoded [] [] = Unit
  Decoded (p ∷ ps) (r ∷ rs) = (os.unmarshal p ≡ ok r) × Decoded ps rs
  Decoded _ _ = ⊥

  pub length-Decoded : (ps : List Bytes) (rs : List Record) → Decoded ps rs → length ps ≡ length rs
  length-Decoded [] [] h = refl
  length-Decoded [] (r ∷ rs) h = absurd h
  length-Decoded (p ∷ ps) [] h = absurd h
  length-Decoded (p ∷ ps) (r ∷ rs) (e, h) = ap suc (length-Decoded ps rs h)

  pub Decoded-end :
      (ps : List Bytes) (rs : List Record) (p : Bytes) (r : Record)
      → Decoded ps rs
      → os.unmarshal p ≡ ok r
      → Decoded (ps ++ (p ∷ [])) (rs ++ (r ∷ []))
  Decoded-end [] [] p r h e = (e, tt)
  Decoded-end [] (x ∷ rs) p r h e = absurd h
  Decoded-end (q ∷ ps) [] p r h e = absurd h
  Decoded-end (q ∷ ps) (x ∷ rs) p r (e', h) e = (e', Decoded-end ps rs p r h e)

  Decoded-get_elem? :
      (ps : List Bytes) (rs : List Record) (k : ℕ) (r : Record)
      → Decoded ps rs
      → get_elem? rs k ≡ some r
      → (p : Bytes) × (get_elem? ps k ≡ some p) × (os.unmarshal p ≡ ok r)
  Decoded-get_elem? [] [] k r h at = cc
  Decoded-get_elem? [] (x ∷ rs) k r h at = absurd h
  Decoded-get_elem? (p ∷ ps) [] k r h at = absurd h
  Decoded-get_elem? (p ∷ ps) (x ∷ rs) zero r (e, h) at = (p, refl, cc)
  Decoded-get_elem? (p ∷ ps) (x ∷ rs) (suc k) r (e, h) at = Decoded-get_elem? ps rs k r h at

-- The server's log holds the records from the base offset on, with what room there is for so many turns.
pub record Serves {S : Type 0} (os : Platform) (machine : Machine S) (base : ℕ)
    (Room : ℕ → Config → List Bytes → Type 0) (n : ℕ) (s : S) (rs : List Record) : Type 0 where
  pub payloads : List Bytes
  pub holds : Holds (machine.get s) base payloads
  pub decoded : Decoded os payloads rs
  pub room : Room n (machine.get s).config payloads

module _ {S : Type 0} (raft : Raft S) (os : Platform) (machine : Machine S) (base : ℕ)
    (Room : ℕ → Config → List Bytes → Type 0) where
  Serves-put :
      (n : ℕ) (s : S) (l : Log) (rs : List Record)
      → ((u : S) (k : Log) → machine.get (machine.put u k) ≡ k)
      → (h : Serves os machine base Room n s rs) → Holds l base h.payloads
      → l.config ≡ (machine.get s).config
      → Serves os machine base Room n (machine.put s l) rs
  Serves-put n s l rs get_put h holds same = record {
    payloads = h.payloads;
    holds = subst (λ k. Holds k base h.payloads) (sym (get_put s l)) holds;
    decoded = h.decoded;
    room =
        subst (λ c. Room n c h.payloads) (sym (ap (λ (k : Log). k.config) (get_put s l) ∙ same))
          h.room;
  }

  commit_log-Shows :
      ((u : S) (k : Log) → machine.get (machine.put u k) ≡ k)
      → Shows (commit_log raft os machine) base (Serves os machine base Room)
  unfolding commit_log read_own Cluster.read
  commit_log-Shows get_put = record {
    found = λ n s rs k r h at.
        let (p, there, e) = Decoded-get_elem? os h.payloads rs k r h.decoded at in
        let (got, holds, same) =
          log_read_lem os (machine.get s) base k h.payloads p h.holds there in
        (r, got ∙ e, (refl, Serves-put n s _ rs get_put h holds same));
    missing = λ n s rs k h past.
        let count = length-Decoded os h.payloads rs h.decoded in
        let e =
          log_read-past os (machine.get s) base (base + k) h.payloads h.holds
            (inr (omega (arith, count))) in
        let l = (Log.read os (base + k) (machine.get s)).1 in
        let left : l ≡ machine.get s = ap (λ (x : Result Record × Log). x.1) e in
        (
          ap (λ (x : Result Record × Log). x.0) e,
          Serves-put n s l rs get_put h (subst (λ k. Holds k base h.payloads) (sym left) h.holds)
              (ap (λ (k : Log). k.config) left),
        );
  }

  -- `ConsumeStream` of the distributed log by a subject that may produce, on a server whose log
  -- holds records from a base offset on, while others do nothing but append to it between the
  -- turns: what was sent is, without a gap or a repetition, a stretch of the records that the log
  -- has at the end, beginning at the offset asked for, and these are the records of before with
  -- what was appended, as long as the offset does not wrap.
  pub consume_stream-Serves :
      (enforce : Name → Name → Name → Bool) (subject : Name) (k : ℕ) (ts : List (Turn S)) (s : S)
      (rs : List Record)
      → ((u : S) (l : Log) → machine.get (machine.put u l) ≡ l)
      → enforce subject object_wildcard produce_action ≡ true
      → OnlyAppend (Serves os machine base Room) ts
      → base + k + length ts < 2 ^ 64
      → Serves os machine base Room (length ts) s rs
      → AsFollowed
          (commit_log raft os machine)
          enforce
          subject
          base
          (Serves os machine base Room)
          k
          rs
          (consume_stream (commit_log raft os machine) enforce subject (base + k) ts s)
  consume_stream-Serves enforce subject k ts s rs get_put allowed only small h =
      consume_stream-Followed (commit_log raft os machine) enforce subject base
        (Serves os machine base Room) k ts s rs (commit_log-Shows get_put) allowed only small h

  -- `ConsumeStream` of the distributed log does not wait while there are records for it: where the
  -- subject may produce, others do nothing but append, no turn ends the stream, every response can
  -- be sent, the offset does not wrap, and the log has a record for each turn from the offset
  -- asked for on, each turn sends one, and what was sent is just these records in order.
  pub consume_stream-behind :
      (enforce : Name → Name → Name → Bool) (subject : Name) (k : ℕ) (ts : List (Turn S)) (s : S)
      (rs : List Record)
      → ((u : S) (l : Log) → machine.get (machine.put u l) ≡ l)
      → enforce subject object_wildcard produce_action ≡ true
      → OnlyAppend (Serves os machine base Room) ts
      → AllServed ts
      → k + length ts ≤ length rs
      → base + k + length ts < 2 ^ 64
      → Serves os machine base Room (length ts) s rs
      → (consume_stream (commit_log raft os machine) enforce subject (base + k) ts s).0
        ≡ take (length ts) (drop k rs)
  consume_stream-behind enforce subject k ts s rs get_put allowed only all behind small h =
      consume_stream-AllServed (commit_log raft os machine) enforce subject base
        (Serves os machine base Room) k ts s rs (commit_log-Shows get_put) allowed only all behind
        small h

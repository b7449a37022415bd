-- ===== src/Raft/Snapshot.antt =====
-- What `Persist` writes of a log.
use mathlib.Core.Path.{subst}
use smolkafka.Prelude.{
  ℕ, ◌+◌, ◌^◌, ◌<◌, ◌≡◌, refl, ◌∙◌, ap, sym, List, [], ◌∷◌, ◌++◌, length, drop, drop-drop,
  append-nil, append_assoc, length-append, arith,
}
use smolkafka.Exec.{ok, Exec, discard, ◌>>◌}
use smolkafka.Exec.Returns.{Returns}
use smolkafka.Bytes.{Bytes}
use smolkafka.Store
use smolkafka.Store.{Store}
use smolkafka.Store.Position.{AtEnd, drop-past}
use smolkafka.Store.Frames.{Shows as StoreShows}
use smolkafka.Segment.{Segment, Config}
use smolkafka.Segment.Holds.{bytes_of}
use smolkafka.Log.{Log}
use smolkafka.Log.Chain.{Chain}
use smolkafka.Log.Holds.{Holds}
use smolkafka.Log
use smolkafka.Log.Position.{AllAtEnd, append-AllAtEnd}
use smolkafka.Log.Suits.{Suits, Suits-left}
use smolkafka.Log.Append.{log_append_lem}
use smolkafka.Platform.{Platform, Record}
use smolkafka.Raft.Later.{AreRecords}
use smolkafka.Raft.{persist_segments, persist}

-- What the files of the segments hold behind the positions of their descriptors.
abbrev pub behind : List Segment → Bytes
behind [] = []
behind (s ∷ ss) = drop s.store.file.pos s.store.file.contents ++ behind ss

AllAtEnd-behind : (ss : List Segment) → AllAtEnd ss → behind ss ≡ []
AllAtEnd-behind [] h = refl
AllAtEnd-behind (s ∷ ss) (hs, h) = ap (λ t. t ++ behind ss) hs ∙ AllAtEnd-behind ss h

-- A store is copied from its descriptor's position, to which a second copy adds nothing.
write_to_lem :
    (s : Store) (b : Bytes) (n : ℕ)
    → StoreShows s b n
    → Returns
        (Store.write_to s)
        (λ p t. (p ≡ drop s.file.pos s.file.contents) × StoreShows t b n × AtEnd t)
unfolding Store.write_to
write_to_lem s b n h =
    let left = drop s.file.pos s.file.contents in
    rw h.is_open (
      left,
      refl,
      (
        refl,
        record {
          is_open = refl;
          not_failed = h.not_failed;
          bytes_lem = h.bytes_lem;
          size_lem = h.size_lem;
        },
        sym (drop-drop s.file.pos (length left) s.file.contents) ∙ drop-past left,
      ),
    )

-- One segment after the other.
persist-Chain :
    (c : Config) (base : ℕ) (ss : List Segment) (pss : List (List Bytes))
    → Chain c base ss pss
    → Returns (persist_segments ss) (λ b ss'. (b ≡ behind ss) × Chain c base ss' pss × AllAtEnd ss')
unfolding persist_segments
persist-Chain c base [] [] h = ([], refl, (refl, tt, tt))
persist-Chain c base [] (ps ∷ pss) h = absurd h
persist-Chain c base (s ∷ ss) [] h = absurd h
persist-Chain c base (s ∷ ss) (ps ∷ pss) (hs, hb, hc, rest) =
    let (p, copied, (part, shows, at_end)) = write_to_lem s.store _ (bytes_of ps) hs.store_lem in
    let (q, others, (parts, chain, at_ends)) = persist-Chain c (base + length ps) ss pss rest in
    rw (copied, others, persist_segments)
      (
        p ++ q,
        refl,
        (
          ap (λ t. t ++ q) part ∙ ap (λ t. drop s.store.file.pos s.store.file.contents ++ t) parts,
          (
            record {
              store_lem = shows;
              index_lem = hs.index_lem;
              next_lem = hs.next_lem;
              base_small = hs.base_small;
              index_small = hs.index_small;
              store_small = hs.store_small;
            },
            hb,
            hc,
            chain,
          ),
          (at_end, at_ends),
        ),
      )

persist-once :
    (l : Log) (base : ℕ) (fs : List Bytes)
    → Holds l base fs
    → Returns
        (persist l)
        (λ b l'. (b ≡ behind l.segments) × Holds l' base fs × AllAtEnd l'.segments)
unfolding persist
persist-once l base fs h =
    let (b, written, (all, chain, at_ends)) =
      persist-Chain l.config base l.segments (h.earlier ++ (h.last ∷ [])) h.chain in
    (
      b,
      written,
      (
        all,
        record {
          earlier = h.earlier;
          last = h.last;
          all_lem = h.all_lem;
          chain = chain;
          active_lem = h.active_lem;
          fresh = h.fresh;
          store_room = h.store_room;
          index_room = h.index_room;
          index_small = h.index_small;
          filled = h.filled;
          listed = h.listed;
        },
        at_ends,
      ),
    )

module _ (os : Platform) where
  -- Records appended one after the other.
  abbrev pub append_all : List Record → Exec Log Unit
  append_all [] l = (ok tt, l)
  append_all (r ∷ rs) l = (discard (Log.append os r) >> append_all rs) l

  -- What is appended where no file holds anything behind its position is in no snapshot.
  pub persist-append_all :
      (c : Config) (l : Log) (base n : ℕ) (fs : List Bytes) (rs : List Record) (ps : List Bytes)
      → Holds l base fs
      → AllAtEnd l.segments
      → l.config ≡ c
      → Suits c (fs ++ ps)
      → n ≡ base + length fs
      → AreRecords os c n rs ps
      → Returns (append_all rs l) (λ _ l'. Holds l' base (fs ++ ps) × ((persist l').0 ≡ ok []))
  persist-append_all c l base n fs [] [] h at_end same suits here are =
      let (b, written, (is, _, _)) = persist-once l base fs h in
      (
        tt,
        refl,
        (
          subst (Holds l base) (sym (append-nil fs)) h,
          written ∙ ap ok (is ∙ AllAtEnd-behind l.segments at_end),
        ),
      )
  persist-append_all c l base n fs [] (p ∷ ps) h at_end same suits here are = absurd are
  persist-append_all c l base n fs (r ∷ rs) [] h at_end same suits here are = absurd are
  persist-append_all c l base n fs (r ∷ rs) (p ∷ ps) h at_end same suits here
        (m, room, small, are) =
      let suits_now = subst (λ k. Suits k fs) (sym same) (Suits-left c fs (p ∷ ps) suits) in
      let marshalled = ap (λ k. os.marshal (record r { offset = k })) (sym here) ∙ m in
      let space : l.config.max_store_bytes + length p + 8 < 2 ^ 63 =
        omega (arith, room, ap (λ (k : Config). k.max_store_bytes) same) in
      let (off, appended, (at, holds, kept)) =
        log_append_lem os l base fs r p h suits_now marshalled space (omega arith) in
      let (_, _, at_ends) =
        append-AllAtEnd os l base fs r p h suits_now marshalled space (omega arith) at_end in
      let others =
        persist-append_all c (Log.append os r l).1 base (n + 1) (fs ++ (p ∷ [])) rs ps holds at_ends
          (kept ∙ same) (subst (Suits c) (sym (append_assoc fs (p ∷ []) ps)) suits)
          (omega (arith, here, length-append fs (p ∷ []))) are in
      rw appended (
        subst
          (λ qs.
            Returns (append_all rs (Log.append os r l).1)
              (λ _ l'. Holds l' base qs × ((persist l').0 ≡ ok [])))
          (append_assoc fs (p ∷ []) ps) others)

  -- A snapshot of a log succeeds, and is not what the log holds, but what each store's file has
  -- behind the position of its descriptor, segment by segment. If records are then appended, with
  -- room for each and limits that suit the payloads, the log holds their payloads behind its own,
  -- and the next snapshot of it is empty.
  pub persist_lem :
      (l : Log) (base : ℕ) (fs : List Bytes) (rs : List Record) (ps : List Bytes)
      → Holds l base fs
      → Suits l.config (fs ++ ps)
      → AreRecords os l.config (base + length fs) rs ps
      → Returns (persist l) (λ b l'.
        (b ≡ behind l.segments)
        × Returns
            (append_all rs l')
            (λ _ l''. Holds l'' base (fs ++ ps) × ((persist l'').0 ≡ ok [])))
  unfolding persist
  persist_lem l base fs rs ps h suits are =
      let (b, written, (is, holds, at_ends)) = persist-once l base fs h in
      (
        b,
        written,
        (
          is,
          persist-append_all l.config (persist l).1 base (base + length fs) fs rs ps holds at_ends
              refl suits refl are,
        ),
      )

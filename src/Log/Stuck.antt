-- ===== src/Log/Stuck.antt =====
-- A log whose active segment has no room for an index entry, and is not maxed.
use smolkafka.Prelude.{
  ℕ, zero, suc, ◌+◌, ◌*◌, ◌<◌, ◌≡◌, ◌≢◌, refl, ap, inl, inr, some, List, [], ◌∷◌, ◌++◌, arith,
  length, get_elem?,
}
use smolkafka.Exec.{Result, ok, Result-cases}
use smolkafka.Bytes.{Bytes}
use smolkafka.Platform.{Platform, Record}
use smolkafka.Segment
use smolkafka.Segment.{Segment, Config}
use smolkafka.Segment.Holds.{length-places}
use smolkafka.Segment.Append.{IsStuck, append-IsStuck}
use smolkafka.Log.{Log, in_list, with_last, on_active_of, on_active, append}
use smolkafka.Log.Chain.{Chain}
use smolkafka.Log.Holds.{Holds}

abbrev LastStuck : List Segment → Type 0
LastStuck [] = ⊥
LastStuck (s ∷ []) = IsStuck s
LastStuck (s ∷ t ∷ ss) = LastStuck (t ∷ ss)

LastStuck-cons : (s : Segment) (ss : List Segment) → LastStuck ss → LastStuck (s ∷ ss)
LastStuck-cons s [] h = absurd h
LastStuck-cons s (t ∷ ss) h = h

record IsLogStuck (l : Log) : Type 0 where
  active_lem : l.active ≡ in_list
  last_lem : LastStuck l.segments

Chain-LastStuck :
    (c : Config) (base : ℕ) (ss : List Segment) (qss : List (List Bytes)) (ps : List Bytes)
    → Chain c base ss (qss ++ (ps ∷ []))
    → 12 * length ps < c.max_index_bytes
    → c.max_index_bytes < 12 * length ps + 12
    → LastStuck ss
Chain-LastStuck c base [] [] ps h lo hi = absurd h
Chain-LastStuck c base [] (qs ∷ qss) ps h lo hi = absurd h
Chain-LastStuck c base (s ∷ []) [] ps (hs, hb, hc, h) lo hi =
    let limit = ap (λ (d : Config). d.max_index_bytes) hc in
    record {
      no_room =
          omega (arith, length-places 0 0 ps, limit, hs.index_lem.cap_lem, hs.index_lem.size_lem);
      size_small = omega (arith, hs.index_lem.fits, hs.index_lem.small);
      not_maxed = omega (arith, length-places 0 0 ps, limit, hs.index_lem.size_lem);
    }
Chain-LastStuck c base (s ∷ []) (qs ∷ []) ps (hs, hb, hc, h) lo hi = absurd h
Chain-LastStuck c base (s ∷ []) (qs ∷ rs ∷ qss) ps (hs, hb, hc, h) lo hi = absurd h
Chain-LastStuck c base (s ∷ t ∷ ss) [] ps (hs, hb, hc, h) lo hi = absurd h
Chain-LastStuck c base (s ∷ t ∷ ss) (qs ∷ qss) ps (hs, hb, hc, h) lo hi =
    Chain-LastStuck c (base + length qs) (t ∷ ss) qss ps h lo hi

module _ (os : Platform) where
  with_last-stuck :
      (r : Record) (ss : List Segment)
      → LastStuck ss
      → ((off : ℕ) → (with_last (Segment.append os r) ss).0 ≢ ok off)
        × LastStuck (with_last (Segment.append os r) ss).1
  unfolding with_last
  with_last-stuck r [] h = absurd h
  with_last-stuck r (s ∷ []) h = append-IsStuck os s r h
  with_last-stuck r (s ∷ t ∷ ss) h =
      let (fails, stays) = with_last-stuck r (t ∷ ss) h in
      (fails, LastStuck-cons s (with_last (Segment.append os r) (t ∷ ss)).1 stays)

  append-IsLogStuck :
      (l : Log) (r : Record)
      → IsLogStuck l
      → ((off : ℕ) → (append os r l).0 ≢ ok off) × IsLogStuck (append os r l).1
  unfolding append on_active on_active_of
  append-IsLogStuck l r h =
      let (fails, stays) = with_last-stuck r l.segments h.last_lem in
      elim (Result-cases (with_last (Segment.append os r) l.segments).0) [
        | inl (off, e) ↦ absurd (fails off e)
        | inr (x, e) ↦
            rw (h.active_lem, e) (λ off k. cc, record { active_lem = refl; last_lem = stays })
      ]

  -- The results of a number of calls of `Append`.
  pub append_each : List Record → Log → List (Result ℕ)
  append_each [] l = []
  append_each (r ∷ rs) l = let (x, l') = append os r l in x ∷ append_each rs l'

  append_each-stuck :
      (rs : List Record) (l : Log) (i off : ℕ)
      → IsLogStuck l
      → get_elem? (append_each rs l) i ≢ some (ok off)
  unfolding append_each
  append_each-stuck [] l i off h e = cc
  append_each-stuck (r ∷ rs) l zero off h e = (append-IsLogStuck l r h).0 off (cc)
  append_each-stuck (r ∷ rs) l (suc i) off h e =
      append_each-stuck rs (append os r l).1 i off (append-IsLogStuck l r h).1 e

  -- Where the entries of the active segment leave less than an entry's width of the index limit,
  -- no later `Append` succeeds, whatever the records.
  pub append-stuck_forever :
      (l : Log) (base : ℕ) (fs : List Bytes) (h : Holds l base fs)
      → l.config.max_index_bytes < 12 * length h.last + 12
      → (rs : List Record) (i off : ℕ) → get_elem? (append_each rs l) i ≢ some (ok off)
  append-stuck_forever l base fs h full rs i off = append_each-stuck rs l i off (record {
    active_lem = h.active_lem;
    last_lem = Chain-LastStuck l.config base l.segments h.earlier h.last h.chain h.index_room full;
  })

-- ===== src/Log/Truncate.antt =====
-- `Truncate` of a log, where something stays and where nothing does.
use mathlib.Core.Path.{subst}
use smolkafka.Prelude.{
  ℕ, ◌+◌, ◌^◌, ◌≤◌, ◌<◌, ◌≡◌, ◌≢◌, ◌⊎◌, refl, ◌∙◌, ap, sym, inl, inr, List, [], ◌∷◌, ◌++◌, arith,
  length, length-append, flatten, flatten-end, flatten-append, end_view,
}
use smolkafka.Exec.{err, panic, offset_out_of_range}
use smolkafka.Exec.Returns.{Returns}
use smolkafka.Bytes.{Bytes}
use smolkafka.Platform.{Platform}
use smolkafka.Disk.{Dir}
use smolkafka.Segment.{Segment}
use smolkafka.Log.{
  Log, in_list, active_after, truncate_loop, truncate, read_in, read, lowest_offset,
  lowest_offset_of, highest_offset, highest_offset_of,
}
use smolkafka.Log.Chain.{Chain}
use smolkafka.Log.Holds.{Holds}
use smolkafka.Log.Cut.{truncate_loop-Cut, truncate_loop-staying}
use smolkafka.Log.CutOff.{Cut, staying, active_after-LastAbove}
use smolkafka.Log.Kept.{Truncated, kept-Holds}

module _ (os : Platform) (l : Log) (base lowest : ℕ) (fs : List Bytes) (h : Holds l base fs)
    (small : lowest + 1 < 2 ^ 64) where
  all_segments : length (flatten (h.earlier ++ (h.last ∷ []))) ≡ length fs
  all_segments = ap (λ (p : List Bytes). length p) (flatten-end h.earlier h.last ∙ sym h.all_lem)

  -- What a cut of the log's segments comes to.
  module _ (kept_ss all_ss : List Segment) (d : Dir)
      (cut : Cut l.config base lowest (h.earlier ++ (h.last ∷ [])) l.dir kept_ss all_ss d) where
    count : length fs ≡ length (flatten cut.gone) + length (flatten cut.kept)
    count =
        sym all_segments
        ∙ ap (λ (p : List (List Bytes)). length (flatten p)) cut.split
        ∙ ap (λ (p : List Bytes). length p) (flatten-append cut.gone cut.kept)
        ∙ length-append (flatten cut.gone) (flatten cut.kept)

    some_kept : lowest + 1 < base + length fs → cut.kept ≢ []
    some_kept lt none_kept = below_all cut.below
      where
        all_gone : length fs ≡ length (flatten cut.gone)
        all_gone =
            omega (arith, count, ap (λ (p : List (List Bytes)). length (flatten p)) none_kept)

        below_all : (cut.gone ≡ []) ⊎ (base + length (flatten cut.gone) ≤ lowest + 1) → ⊥
        below_all (inl e) = omega (
          arith,
          ap (λ (p : List (List Bytes)). length p) cut.split,
          length-append h.earlier (h.last ∷ []),
          length-append cut.gone cut.kept,
          ap (λ (p : List (List Bytes)). length p) e,
          ap (λ (p : List (List Bytes)). length p) none_kept,
        )
        below_all (inr le) = omega (arith, all_gone)

    none_kept : base + length fs ≤ lowest + 1 → cut.kept ≡ []
    none_kept le = go cut.kept refl
      where
        go : (kept : List (List Bytes)) → cut.kept ≡ kept → kept ≡ []
        go [] e = refl
        go (ks ∷ kss) e = absurd (
            omega (
              arith,
              cut.above ks kss e,
              count,
              ap (λ (p : List (List Bytes)). length (flatten p)) e,
              length-append ks (flatten kss),
            ))

    still_active : lowest + 1 < base + length fs → active_after lowest l.active all_ss ≡ in_list
    still_active lt = ap (λ a. active_after lowest a all_ss) h.active_lem ∙ elim cut.active_lem [
      | inl k ↦ absurd (some_kept lt k)
      | inr above ↦ active_after-LastAbove lowest all_ss above
    ]

    cut-Truncated :
        lowest + 1 < base + length fs
        → kept_ss ≡ staying lowest l.segments
        → Truncated base lowest fs l
            (record l { segments = kept_ss; active = active_after lowest l.active all_ss; dir = d })
    cut-Truncated lt stay_lem = elim (end_view cut.kept) [
      | inl e ↦ absurd (some_kept lt e)
      | inr (earlier, last, e) ↦ record {
        gone = flatten cut.gone;
        stay = flatten earlier ++ last;
        split =
            h.all_lem
            ∙ sym (flatten-end h.earlier h.last)
            ∙ ap flatten cut.split
            ∙ flatten-append cut.gone cut.kept
            ∙ ap (λ k. flatten cut.gone ++ k) (ap flatten e ∙ flatten-end earlier last);
        below = elim cut.below [ inl g ↦ inl (ap flatten g) | inr le ↦ inr le ];
        segments_lem = stay_lem;
        holds =
            kept-Holds l
              (record l {
                segments = kept_ss;
                active = active_after lowest l.active all_ss;
                dir = d;
              })
              base lowest fs h cut.gone earlier last (cut.split ∙ ap (λ k. cut.gone ++ k) e) refl
              (subst (Chain l.config (base + length (flatten cut.gone)) kept_ss) e cut.chain)
              (still_active lt) cut.exists_lem cut.shrinks cut.names_lem;
        config_lem = refl;
      }
    ]

  -- `Truncate` at an offset below the last one succeeds on a log that holds payloads: it keeps
  -- exactly the segments that go on behind that offset, in their order, so that what goes is a
  -- beginning of the payloads of which no offset is above the one given, and the log holds the
  -- rest.
  pub truncate_lem :
      lowest + 1 < base + length fs
      → Returns (truncate os lowest l) (λ _ l'. Truncated base lowest fs l l')
  unfolding truncate
  truncate_lem lt =
      let (kept_ss, looped, cut) =
        truncate_loop-Cut os l.config lowest small base l.segments (h.earlier ++ (h.last ∷ []))
          l.dir h.chain h.fresh.exists_lem in
      rw (looped, truncate)
        (
          tt,
          refl,
          cut-Truncated kept_ss (truncate_loop os lowest l.segments l.dir).1.0
              (truncate_loop os lowest l.segments l.dir).1.1 cut lt
              (truncate_loop-staying os l.config lowest small l.segments kept_ss l.dir looped),
        )

  -- `Truncate` at the last offset or above leaves no segment, the active one included:
  -- `LowestOffset` and `HighestOffset` then panic, and every `Read` answers that the offset is out
  -- of range.
  pub truncate-all :
      base + length fs ≤ lowest + 1
      → Returns (truncate os lowest l) (λ _ l'.
        (lowest_offset l' ≡ err panic)
        × (highest_offset l' ≡ err panic)
        × ((off : ℕ) → (read os off l').0 ≡ err (offset_out_of_range off)))
  unfolding truncate lowest_offset lowest_offset_of highest_offset highest_offset_of read read_in
  truncate-all le =
      let (kept_ss, looped, cut) =
        truncate_loop-Cut os l.config lowest small base l.segments (h.earlier ++ (h.last ∷ []))
          l.dir h.chain h.fresh.exists_lem in
      let nothing : kept_ss ≡ [] = no_segments (base + length (flatten cut.gone)) kept_ss (
        subst (Chain l.config (base + length (flatten cut.gone)) kept_ss)
          (none_kept kept_ss (truncate_loop os lowest l.segments l.dir).1.0
            (truncate_loop os lowest l.segments l.dir).1.1 cut le)
          cut.chain) in
      rw (looped, truncate)
        (
          tt,
          refl,
          (
            ap lowest_offset_of nothing,
            ap highest_offset_of nothing,
            λ off. ap (λ ss. (read_in os off ss).0) nothing,
          ),
        )
    where
      no_segments : (n : ℕ) (ss : List Segment) → Chain l.config n ss [] → ss ≡ []
      no_segments n [] k = refl
      no_segments n (s ∷ ss) k = absurd k

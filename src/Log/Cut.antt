-- ===== src/Log/Cut.antt =====
-- The loop of `Truncate`: it removes whole segments from the front.
use mathlib.Core.Path.{subst, subst₂}
use smolkafka.Prelude.{
  ℕ, suc, ◌+◌, ◌^◌, ◌≤◌, ◌<◌, ◌≡◌, ◌⊎◌, refl, ◌∙◌, ap, sym, inl, inr, true, false, List, [], ◌∷◌,
  ◌++◌, arith, length, length-append, flatten, Bool-cases, leb,
}
use smolkafka.Exec.{ok, Result-cases}
use smolkafka.Bytes.{Bytes}
use smolkafka.Platform.{Platform}
use smolkafka.Disk.{Dir}
use smolkafka.Segment
use smolkafka.Segment.{Segment, Config}
use smolkafka.Segment.Holds.{Holds as SegmentHolds}
use smolkafka.Segment.Remove.{remove_lem}
use smolkafka.Log.{is_below, after_remove, after_keep, truncate_loop}
use smolkafka.Disk.Listing.{file_names, names_removed}
use smolkafka.Log.Chain.{Chain}
use smolkafka.Log.Starts.{names_cut}
use smolkafka.Log.CutOff.{
  Shrinks, Removed-Shrinks, LastAbove, LastAbove-cons, LastAbove-only, Cut, staying,
}

module _ (c : Config) (base lowest : ℕ) (ps : List Bytes) (pss : List (List Bytes)) (d d1 d' : Dir)
    (s : Segment) (kept_ss all_ss : List Segment) where
  -- The first segment is removed.
  Cut-removed :
      base + length ps ≤ lowest + 1
      → Shrinks d d1
      → file_names d1.files ≡ names_removed base (file_names d.files)
      → Cut c (base + length ps) lowest pss d1 kept_ss all_ss d'
      → Cut c base lowest (ps ∷ pss) d kept_ss (s ∷ all_ss) d'
  Cut-removed le shrinks names cut =
      let shift : base + length ps + length (flatten cut.gone)
          ≡ base + length (flatten (ps ∷ cut.gone)) =
        omega (arith, length-append ps (flatten cut.gone)) in
      record {
        gone = ps ∷ cut.gone;
        kept = cut.kept;
        split = ap (λ t. ps ∷ t) cut.split;
        chain = subst (λ b. Chain c b kept_ss cut.kept) shift cut.chain;
        below = inr (below_now cut.below);
        above = λ ks kss e. omega (arith, shift, cut.above ks kss e);
        exists_lem = cut.exists_lem;
        shrinks = λ n none_there. cut.shrinks n (shrinks n none_there);
        names_lem = cut.names_lem ∙ ap (names_cut (base + length ps) cut.gone) names;
        same_length = ap suc cut.same_length;
        active_lem = still_above cut.active_lem;
      }
    where
      below_now :
          (cut.gone ≡ []) ⊎ (base + length ps + length (flatten cut.gone) ≤ lowest + 1)
          → base + length (flatten (ps ∷ cut.gone)) ≤ lowest + 1
      below_now (inl e) = omega (
        arith,
        length-append ps (flatten cut.gone),
        ap (λ (g : List (List Bytes)). length (flatten g)) e,
      )
      below_now (inr h) = omega (arith, length-append ps (flatten cut.gone))

      still_above :
          (cut.kept ≡ []) ⊎ LastAbove lowest all_ss
          → (cut.kept ≡ []) ⊎ LastAbove lowest (s ∷ all_ss)
      still_above (inl e) = inl e
      still_above (inr h) = inr (LastAbove-cons lowest s all_ss h)

  -- The first segment is kept, and so are all behind it.
  Cut-kept :
      SegmentHolds s ps
      → s.base_offset ≡ base
      → s.config ≡ c
      → lowest + 1 < base + length ps
      → is_below lowest s ≡ false
      → Cut c (base + length ps) lowest pss d kept_ss all_ss d'
      → Cut c base lowest (ps ∷ pss) d (s ∷ kept_ss) (s ∷ all_ss) d'
  Cut-kept hs hb hc lt not_below cut =
      let none_gone : cut.gone ≡ [] = not_gone cut.below in
      let kept_is : cut.kept ≡ pss = sym (cut.split ∙ ap (λ g. g ++ cut.kept) none_gone) in
      let base_is : base + length ps + length (flatten cut.gone) ≡ base + 0 + length ps =
        omega (arith, ap (λ (g : List (List Bytes)). length (flatten g)) none_gone) in
      record {
        gone = [];
        kept = ps ∷ pss;
        split = refl;
        chain = (
          hs,
          hb ∙ omega arith,
          hc,
          subst₂ (λ b pss'. Chain c b kept_ss pss') base_is kept_is cut.chain,
        );
        below = inl refl;
        above = λ ks kss e.
            let same : ps ≡ ks = cc in omega (arith, ap (λ (b : List Bytes). length b) same);
        exists_lem = cut.exists_lem;
        shrinks = cut.shrinks;
        names_lem =
            cut.names_lem
            ∙ ap (λ gone. names_cut (base + length ps) gone (file_names d.files)) none_gone;
        same_length = ap suc cut.same_length;
        active_lem = inr (LastAbove-only lowest s all_ss not_below (all_or cut.active_lem kept_is));
      }
    where
      not_gone :
          (cut.gone ≡ []) ⊎ (base + length ps + length (flatten cut.gone) ≤ lowest + 1)
          → cut.gone ≡ []
      not_gone (inl e) = e
      not_gone (inr h) = absurd (omega arith)

      all_or :
          (cut.kept ≡ []) ⊎ LastAbove lowest all_ss
          → cut.kept ≡ pss
          → (length all_ss ≡ 0) ⊎ LastAbove lowest all_ss
      all_or (inl e) k =
          inl (cut.same_length ∙ ap (λ (p : List (List Bytes)). length p) (sym k ∙ e))
      all_or (inr h) k = inr h

module _ (os : Platform) (c : Config) (lowest : ℕ) (small : lowest + 1 < 2 ^ 64) where
  is_below-le :
      (s : Segment) (ps : List Bytes) (base : ℕ)
      → SegmentHolds s ps
      → s.base_offset ≡ base
      → is_below lowest s ≡ true
      → base + length ps ≤ lowest + 1
  unfolding is_below
  is_below-le s ps base hs hb e = ground (arith, hs.next_lem)

  is_below-lt :
      (s : Segment) (ps : List Bytes) (base : ℕ)
      → SegmentHolds s ps
      → s.base_offset ≡ base
      → is_below lowest s ≡ false
      → lowest + 1 < base + length ps
  unfolding is_below
  is_below-lt s ps base hs hb e = ground (arith, hs.next_lem)

  pub truncate_loop-Cut :
      (base : ℕ) (ss : List Segment) (pss : List (List Bytes)) (d : Dir)
      → Chain c base ss pss
      → d.exists ≡ true
      → (kept_ss : List Segment) × ((truncate_loop os lowest ss d).0 ≡ ok kept_ss)
        × Cut c base lowest pss d kept_ss
            (truncate_loop os lowest ss d).1.0
            (truncate_loop os lowest ss d).1.1
  unfolding truncate_loop after_remove after_keep
  truncate_loop-Cut base [] [] d h e = (
    [],
    refl,
    record {
      gone = [];
      kept = [];
      split = refl;
      chain = tt;
      below = inl refl;
      above = λ ks kss k. cc;
      exists_lem = e;
      shrinks = λ n gone. gone;
      names_lem = refl;
      same_length = refl;
      active_lem = inl refl;
    },
  )
  truncate_loop-Cut base [] (ps ∷ pss) d h e = absurd h
  truncate_loop-Cut base (s ∷ ss) [] d h e = absurd h
  truncate_loop-Cut base (s ∷ ss) (ps ∷ pss) d (hs, hb, hc, rest) e =
      elim (Bool-cases (is_below lowest s)) [
        | inl yes_below ↦
            let (_, done, removed) = remove_lem os s ps d hs e in
            let (kept_ss, looped, cut) =
              truncate_loop-Cut (base + length ps) ss pss (Segment.remove os (s, d)).1.1 rest
                removed.exists_lem in
            rw (yes_below, done, looped)
              (
                kept_ss,
                refl,
                Cut-removed c base lowest ps pss d (Segment.remove os (s, d)).1.1
                    (truncate_loop os lowest ss (Segment.remove os (s, d)).1.1).1.1
                    (Segment.remove os (s, d)).1.0 kept_ss
                    (truncate_loop os lowest ss (Segment.remove os (s, d)).1.1).1.0
                    (is_below-le s ps base hs hb yes_below)
                    (Removed-Shrinks s (Segment.remove os (s, d)).1.0 d
                      (Segment.remove os (s, d)).1.1 removed)
                    (removed.names_lem ∙ ap (λ b. names_removed b (file_names d.files)) hb) cut,
              )
        | inr not_below ↦
            let (kept_ss, looped, cut) = truncate_loop-Cut (base + length ps) ss pss d rest e in
            rw (not_below, looped)
              (
                s ∷ kept_ss,
                refl,
                Cut-kept c base lowest ps pss d d (truncate_loop os lowest ss d).1.1 s kept_ss
                    (truncate_loop os lowest ss d).1.0 hs hb hc
                    (is_below-lt s ps base hs hb not_below) not_below cut,
              )
      ]

  is_below_lem : (s : Segment) → is_below lowest s ≡ leb s.next_offset (lowest + 1)
  unfolding is_below
  is_below_lem s = ap (leb s.next_offset) (omega arith)

  staying-below :
      (s : Segment) (ss : List Segment)
      → is_below lowest s ≡ true
      → staying lowest (s ∷ ss) ≡ staying lowest ss
  staying-below s ss e = rw (sym (is_below_lem s) ∙ e) refl

  staying-above :
      (s : Segment) (ss : List Segment)
      → is_below lowest s ≡ false
      → staying lowest (s ∷ ss) ≡ s ∷ staying lowest ss
  staying-above s ss e = rw (sym (is_below_lem s) ∙ e) refl

  -- What the loop keeps, if it comes to its end.
  pub truncate_loop-staying :
      (ss kept : List Segment) (d : Dir)
      → (truncate_loop os lowest ss d).0 ≡ ok kept
      → kept ≡ staying lowest ss
  unfolding truncate_loop after_remove after_keep is_below
  truncate_loop-staying [] kept d e = cc
  truncate_loop-staying (s ∷ ss) kept d e = elim (Bool-cases (is_below lowest s)) [
    | inl yes_below ↦ elim (Result-cases (Segment.remove os (s, d)).0) [
      | inl (u, done) ↦
          truncate_loop-staying ss kept (Segment.remove os (s, d)).1.1
            (rw (yes_below, done, truncate_loop) at e)
          ∙ sym (staying-below s ss yes_below)
      | inr (x, failed) ↦ cc (rw (yes_below, failed, truncate_loop) at e)
    ]
    | inr not_below ↦ elim (Result-cases (truncate_loop os lowest ss d).0) [
      | inl (rest, looped) ↦
          let all : kept ≡ s ∷ rest = cc (rw (not_below, looped, truncate_loop) at e) in
          all
          ∙ ap (λ k. s ∷ k) (truncate_loop-staying ss rest d looped)
          ∙ sym (staying-above s ss not_below)
      | inr (x, failed) ↦ cc (rw (not_below, failed, truncate_loop) at e)
    ]
  ]

-- ===== src/Log/Kept.antt =====
-- What a log holds when segments were removed from its front.
use mathlib.Core.Path.{subst}
use smolkafka.Prelude.{
  ℕ, ◌+◌, ◌≤◌, ◌≡◌, ◌⊎◌, refl, ◌∙◌, ap, sym, true, List, [], ◌∷◌, ◌++◌, append_assoc, arith, length,
  length-append, flatten, flatten-end, flatten-append, end-injective,
}
use smolkafka.Bytes.{Bytes}
use smolkafka.Segment.{Config}
use smolkafka.Segment.Holds.{bytes_of}
use smolkafka.Log.{Log, in_list}
use smolkafka.Disk.Listing.{file_names, names_of, Increasing}
use smolkafka.Log.Chain.{Chain}
use smolkafka.Log.Starts.{starts, AllFilled, Chain-Increasing, names_cut, names_cut-names_of}
use smolkafka.Log.Holds.{Holds}
use smolkafka.Log.CutOff.{Shrinks, staying}

-- The log `l'` has the segments of `l` that go on behind the offset after `lowest`, and no others:
-- it holds the end of `fs` that begins at the first of them, and lacks no offset above `lowest`.
pub record Truncated (base lowest : ℕ) (fs : List Bytes) (l l' : Log) : Type 0 where
  pub gone : List Bytes
  pub stay : List Bytes
  pub split : fs ≡ gone ++ stay
  pub below : (gone ≡ []) ⊎ (base + length gone ≤ lowest + 1)
  pub segments_lem : l'.segments ≡ staying lowest l.segments
  pub holds : Holds l' (base + length gone) stay
  pub config_lem : l'.config ≡ l.config

pub AllFilled-rest :
    (pss gone kept : List (List Bytes)) (ps qs : List Bytes)
    → pss ++ (ps ∷ []) ≡ gone ++ (kept ++ (qs ∷ []))
    → AllFilled pss
    → AllFilled kept
AllFilled-rest pss gone [] ps qs e h = tt
AllFilled-rest [] [] (ks ∷ []) ps qs e h = cc
AllFilled-rest [] [] (ks ∷ js ∷ kept) ps qs e h = cc
AllFilled-rest (rs ∷ pss) [] (ks ∷ kept) ps qs e (some, h) =
    (omega (arith, ap first_length e), AllFilled-rest pss [] kept ps qs (cc) h)
  where
    first_length : List (List Bytes) → ℕ
    first_length [] = 0
    first_length (xs ∷ xss) = length xs
AllFilled-rest [] (gs ∷ []) (ks ∷ kept) ps qs e h = cc
AllFilled-rest [] (gs ∷ fs ∷ gone) (ks ∷ kept) ps qs e h = cc
AllFilled-rest (rs ∷ pss) (gs ∷ gone) (ks ∷ kept) ps qs e (some, h) =
    AllFilled-rest pss gone (ks ∷ kept) ps qs (cc) h

-- What is kept has the active segment, unchanged, at its end.
pub kept-Holds :
    (l l' : Log) (base lowest : ℕ) (fs : List Bytes) (h : Holds l base fs)
    (gone earlier : List (List Bytes)) (last : List Bytes)
    → h.earlier ++ (h.last ∷ []) ≡ gone ++ (earlier ++ (last ∷ []))
    → l'.config ≡ l.config
    → Chain l.config (base + length (flatten gone)) l'.segments (earlier ++ (last ∷ []))
    → l'.active ≡ in_list
    → l'.dir.exists ≡ true
    → Shrinks l.dir l'.dir
    → file_names l'.dir.files ≡ names_cut base gone (file_names l.dir.files)
    → Holds l' (base + length (flatten gone)) (flatten earlier ++ last)
kept-Holds l l' base lowest fs h gone earlier last split config chain active exists shrinks names =
    let same : h.last ≡ last =
      end-injective h.earlier (gone ++ earlier) h.last last
        (split ∙ sym (append_assoc gone earlier (last ∷ []))) in
    let total = ap (λ (p : List (List Bytes)). length (flatten p)) split in
    let at : base + length (flatten h.earlier)
        ≡ base + length (flatten gone) + length (flatten earlier) =
      omega (
        arith,
        total,
        ap (λ (p : List Bytes). length p) (flatten-end h.earlier h.last),
        length-append (flatten h.earlier) h.last,
        ap (λ (p : List Bytes). length p) (flatten-append gone (earlier ++ (last ∷ []))),
        length-append (flatten gone) (flatten (earlier ++ (last ∷ []))),
        ap (λ (p : List Bytes). length p) (flatten-end earlier last),
        length-append (flatten earlier) last,
        ap (λ (p : List Bytes). length p) same,
      ) in
    record {
      earlier = earlier;
      last = last;
      all_lem = refl;
      chain =
          subst (λ c. Chain c (base + length (flatten gone)) l'.segments (earlier ++ (last ∷ [])))
            (sym config) chain;
      active_lem = active;
      filled = AllFilled-rest h.earlier gone earlier h.last last split h.filled;
      listed =
          names
          ∙ ap (names_cut base gone) (h.listed ∙ ap (λ pss. names_of (starts base pss)) split)
          ∙ names_cut-names_of base gone (earlier ++ (last ∷ [])) (
              subst (λ pss. Increasing (starts base pss)) split
                (Chain-Increasing l.config base l.segments h.earlier h.last h.chain h.filled));
      fresh = record {
        exists_lem = exists;
        no_store = λ n after small. shrinks _ (h.fresh.no_store n (omega (arith, at)) small);
        no_index = λ n after small. shrinks _ (h.fresh.no_index n (omega (arith, at)) small);
      };
      store_room =
          omega
            (arith, ap bytes_of same, ap (λ (c : Config). c.max_store_bytes) config, h.store_room);
      index_room = omega (
        arith,
        ap (λ (p : List Bytes). length p) same,
        ap (λ (c : Config). c.max_index_bytes) config,
        h.index_room,
      );
      index_small = omega (arith, ap (λ (c : Config). c.max_index_bytes) config, h.index_small);
    }

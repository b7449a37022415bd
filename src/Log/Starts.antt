-- ===== src/Log/Starts.antt =====
-- Where the segments of a log begin, and the names of their files.
use smolkafka.Prelude.{
  ℕ, ◌+◌, ◌<◌, ◌≡◌, ◌∙◌, ap, List, [], ◌∷◌, ◌++◌, arith, length, length-append, flatten,
}
use smolkafka.Bytes.{Bytes}
use smolkafka.Disk.{Name}
use smolkafka.Disk.Listing.{AllAbove, Increasing, names_of, names_removed, names_removed-names_of}
use smolkafka.Segment.{Segment, Config}
use smolkafka.Log.Chain.{Chain}

-- The offsets at which the segments of these payloads begin, the first at `base`.
abbrev pub starts : ℕ → List (List Bytes) → List ℕ
starts base [] = []
starts base (ps ∷ pss) = base ∷ starts (base + length ps) pss

-- No segment is empty.
abbrev pub AllFilled : List (List Bytes) → Type 0
AllFilled [] = Unit
AllFilled (ps ∷ pss) = (0 < length ps) × AllFilled pss

pub AllFilled-end :
    (pss : List (List Bytes)) (ps : List Bytes)
    → AllFilled pss
    → 0 < length ps
    → AllFilled (pss ++ (ps ∷ []))
AllFilled-end [] ps h some = (some, tt)
AllFilled-end (qs ∷ pss) ps (filled, h) some = (filled, AllFilled-end pss ps h some)

pub starts-append :
    (base : ℕ) (pss qss : List (List Bytes))
    → starts base (pss ++ qss) ≡ starts base pss ++ starts (base + length (flatten pss)) qss
starts-append base [] qss = ap (λ n. starts n qss) (omega arith)
starts-append base (ps ∷ pss) qss =
    ap (λ t. base ∷ t)
      (starts-append (base + length ps) pss qss
        ∙ ap (λ n. starts (base + length ps) pss ++ starts n qss)
            (omega (arith, length-append ps (flatten pss))))

Chain-AllAbove :
    (c : Config) (b base : ℕ) (ss : List Segment) (pss : List (List Bytes))
    → Chain c base ss pss
    → b < base
    → AllAbove b (starts base pss)
Chain-AllAbove c b base [] [] h lt = tt
Chain-AllAbove c b base [] (ps ∷ pss) h lt = absurd h
Chain-AllAbove c b base (s ∷ ss) [] h lt = absurd h
Chain-AllAbove c b base (s ∷ ss) (ps ∷ pss) (hs, hb, hc, rest) lt = (
  lt,
  omega (arith, hs.base_small),
  Chain-AllAbove c b (base + length ps) ss pss rest (omega arith),
)

-- The segments before the last one are not empty, so each begins after the one before it.
pub Chain-Increasing :
    (c : Config) (base : ℕ) (ss : List Segment) (earlier : List (List Bytes)) (last : List Bytes)
    → Chain c base ss (earlier ++ (last ∷ []))
    → AllFilled earlier
    → Increasing (starts base (earlier ++ (last ∷ [])))
Chain-Increasing c base [] [] last h filled = absurd h
Chain-Increasing c base [] (ps ∷ pss) last h filled = absurd h
Chain-Increasing c base (s ∷ []) [] last (hs, hb, hc, rest) filled =
    (omega (arith, hs.base_small), tt, tt)
Chain-Increasing c base (s ∷ t ∷ ss) [] last (hs, hb, hc, rest) filled = absurd rest
Chain-Increasing c base (s ∷ ss) (ps ∷ pss) last (hs, hb, hc, rest) (some, filled) = (
  omega (arith, hs.base_small),
  Chain-AllAbove c base (base + length ps) ss (pss ++ (last ∷ [])) rest (omega arith),
  Chain-Increasing c (base + length ps) ss pss last rest filled,
)

-- What the removal of segments, one after the other, leaves of the names.
abbrev pub names_cut : ℕ → List (List Bytes) → List Name → List Name
names_cut base [] ns = ns
names_cut base (ps ∷ pss) ns = names_cut (base + length ps) pss (names_removed base ns)

pub names_cut-names_of :
    (base : ℕ) (gone kept : List (List Bytes))
    → Increasing (starts base (gone ++ kept))
    → names_cut base gone (names_of (starts base (gone ++ kept)))
      ≡ names_of (starts (base + length (flatten gone)) kept)
names_cut-names_of base [] kept h = ap (λ n. names_of (starts n kept)) (omega arith)
names_cut-names_of base (ps ∷ gone) kept (small, above, h) =
    ap (names_cut (base + length ps) gone)
      (names_removed-names_of base (starts (base + length ps) (gone ++ kept)) small above)
    ∙ names_cut-names_of (base + length ps) gone kept h
    ∙ ap (λ n. names_of (starts n kept)) (omega (arith, length-append ps (flatten gone)))

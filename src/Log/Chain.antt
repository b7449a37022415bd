-- ===== src/Log/Chain.antt =====
-- Segments that follow one another without a gap.
use smolkafka.Prelude.{ℕ, ◌+◌, ◌≡◌, ◌∙◌, List, [], ◌∷◌, ◌++◌, arith, length, length-append, flatten}
use smolkafka.Exec.{Exec}
use smolkafka.Exec.Returns.{Returns}
use smolkafka.Bytes.{Bytes}
use smolkafka.Segment.{Segment, Config}
use smolkafka.Segment.Holds.{Holds as SegmentHolds}
use smolkafka.Log.{with_last}

-- The segments `ss`, configured by `c`, hold the payloads `pss`, each from where the one before it
-- ends, the first from the offset `base`.
abbrev pub Chain : Config → ℕ → List Segment → List (List Bytes) → Type 0
Chain c base [] [] = Unit
Chain c base [] (ps ∷ pss) = ⊥
Chain c base (s ∷ ss) [] = ⊥
Chain c base (s ∷ ss) (ps ∷ pss) =
    SegmentHolds s ps × (s.base_offset ≡ base) × (s.config ≡ c) × Chain c (base + length ps) ss pss

-- What a method of a segment keeps, besides what it is told to change.
pub record Keeps (s t : Segment) : Type 0 where
  pub base_lem : t.base_offset ≡ s.base_offset
  pub config_lem : t.config ≡ s.config

-- A method of the last segment.
pub with_last-Chain :
    {A : Type 0} (m : Exec Segment A) (R : A → Type 0) (c : Config) (base : ℕ) (ss : List Segment)
    (qss : List (List Bytes)) (ps ps' : List Bytes)
    → Chain c base ss (qss ++ (ps ∷ []))
    → ((s : Segment)
        → SegmentHolds s ps
        → s.base_offset ≡ base + length (flatten qss)
        → s.config ≡ c
        → Returns (m s) (λ a t. R a × SegmentHolds t ps' × Keeps s t))
    → Returns (with_last m ss) (λ a ss'. R a × Chain c base ss' (qss ++ (ps' ∷ [])))
unfolding with_last
with_last-Chain m R c base [] [] ps ps' h f = absurd h
with_last-Chain m R c base [] (qs ∷ qss) ps ps' h f = absurd h
with_last-Chain m R c base (s ∷ []) [] ps ps' (hs, hb, hc, _) f =
    let (a, e, (r, ht, k)) = f s hs (hb ∙ omega arith) hc in
    (a, e, (r, (ht, k.base_lem ∙ hb, k.config_lem ∙ hc, tt)))
with_last-Chain m R c base (s ∷ []) (qs ∷ []) ps ps' (hs, hb, hc, h) f = absurd h
with_last-Chain m R c base (s ∷ []) (qs ∷ rs ∷ qss) ps ps' (hs, hb, hc, h) f = absurd h
with_last-Chain m R c base (s ∷ t ∷ ss) [] ps ps' (hs, hb, hc, h) f = absurd h
with_last-Chain m R c base (s ∷ t ∷ ss) (qs ∷ qss) ps ps' (hs, hb, hc, h) f =
    let (a, e, (r, rest)) =
      with_last-Chain m R c (base + length qs) (t ∷ ss) qss ps ps' h
        (λ u hu bu cu. f u hu (bu ∙ omega (arith, length-append qs (flatten qss))) cu) in
    (a, e, (r, (hs, hb, hc, rest)))

-- One more segment.
pub Chain-end :
    (c : Config) (base : ℕ) (ss : List Segment) (pss : List (List Bytes)) (s : Segment)
    (ps : List Bytes)
    → Chain c base ss pss
    → SegmentHolds s ps
    → s.base_offset ≡ base + length (flatten pss)
    → s.config ≡ c
    → Chain c base (ss ++ (s ∷ [])) (pss ++ (ps ∷ []))
Chain-end c base [] [] s ps h hs hb hc = (hs, hb ∙ omega arith, hc, tt)
Chain-end c base [] (qs ∷ pss) s ps h hs hb hc = absurd h
Chain-end c base (t ∷ ss) [] s ps h hs hb hc = absurd h
Chain-end c base (t ∷ ss) (qs ∷ pss) s ps (ht, tb, tc, h) hs hb hc = (
  ht,
  tb,
  tc,
  Chain-end c (base + length qs) ss pss s ps h hs
      (hb ∙ omega (arith, length-append qs (flatten pss))) hc,
)

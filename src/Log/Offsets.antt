-- ===== src/Log/Offsets.antt =====
-- `LowestOffset` and `HighestOffset`.
use smolkafka.Prelude.{
  ℕ, ◌+◌, ◌-◌, ◌≡◌, ◌∙◌, ap, List, [], ◌∷◌, ◌++◌, arith, length, length-append, flatten, ◌==◌,
  if◌then◌else◌,
}
use smolkafka.Exec.{ok}
use smolkafka.Bytes.{Bytes}
use smolkafka.Segment.{Segment, Config}
use smolkafka.Log.{Log, lowest_offset, highest_offset, lowest_offset_of, highest_offset_of}
use smolkafka.Log.Chain.{Chain}
use smolkafka.Log.Holds.{Holds}

-- The offset before `next`, and 0 before 0.
abbrev pub before : ℕ → ℕ
before next = if next == 0 then 0 else next - 1

lowest-Chain :
    (c : Config) (base : ℕ) (ss : List Segment) (qss : List (List Bytes)) (ps : List Bytes)
    → Chain c base ss (qss ++ (ps ∷ []))
    → lowest_offset_of ss ≡ ok base
unfolding lowest_offset_of
lowest-Chain c base [] [] ps h = absurd h
lowest-Chain c base [] (qs ∷ qss) ps h = absurd h
lowest-Chain c base (s ∷ ss) [] ps (hs, hb, hc, h) = ap ok hb
lowest-Chain c base (s ∷ ss) (qs ∷ qss) ps (hs, hb, hc, h) = ap ok hb

highest-Chain :
    (c : Config) (base : ℕ) (ss : List Segment) (qss : List (List Bytes)) (ps : List Bytes)
    → Chain c base ss (qss ++ (ps ∷ []))
    → highest_offset_of ss ≡ ok (before (base + length (flatten qss) + length ps))
unfolding highest_offset_of
highest-Chain c base [] [] ps h = absurd h
highest-Chain c base [] (qs ∷ qss) ps h = absurd h
highest-Chain c base (s ∷ []) [] ps (hs, hb, hc, h) =
    ap (λ n. ok (before n)) (hs.next_lem ∙ omega (arith, hb))
highest-Chain c base (s ∷ []) (qs ∷ []) ps (hs, hb, hc, h) = absurd h
highest-Chain c base (s ∷ []) (qs ∷ rs ∷ qss) ps (hs, hb, hc, h) = absurd h
highest-Chain c base (s ∷ t ∷ ss) [] ps (hs, hb, hc, h) = absurd h
highest-Chain c base (s ∷ t ∷ ss) (qs ∷ qss) ps (hs, hb, hc, h) =
    highest-Chain c (base + length qs) (t ∷ ss) qss ps h
    ∙ ap (λ n. ok (before (n + length ps))) (omega (arith, length-append qs (flatten qss)))

-- On a log that holds payloads `LowestOffset` is its first offset, and `HighestOffset` the one
-- before the next to be given, or 0 if the next is 0.
pub offsets_lem :
    (l : Log) (base : ℕ) (fs : List Bytes)
    → Holds l base fs
    → (lowest_offset l ≡ ok base) × (highest_offset l ≡ ok (before (base + length fs)))
unfolding lowest_offset highest_offset
offsets_lem l base fs h = (
  lowest-Chain l.config base l.segments h.earlier h.last h.chain,
  highest-Chain l.config base l.segments h.earlier h.last h.chain
      ∙ ap (λ n. ok (before n))
          (omega (
            arith,
            ap (λ (p : List Bytes). length p) h.all_lem,
            length-append (flatten h.earlier) h.last,
          )),
)

-- ===== src/Log/Suits.antt =====
-- Limits under which a segment is maxed before it lacks the room for an entry of the index: the limit of
-- the index is a multiple of an entry's width, or every record is so long that the store is full first.
use smolkafka.Prelude.{
  ℕ, ◌+◌, ◌*◌, ◌%◌, ◌≤◌, ◌<◌, ◌≡◌, ◌⊎◌, inl, inr, List, [], ◌∷◌, ◌++◌, arith, length, take, drop,
  take-append-drop,
}
use mathlib.Core.Path.{subst, sym}
use smolkafka.Bytes.{Bytes}
use smolkafka.Segment.{Config}
use smolkafka.Segment.Holds.{bytes_of, bytes_of-cons}

-- Each payload has so many bytes at least.
abbrev pub AllLong : ℕ → List Bytes → Type 0
AllLong m [] = Unit
AllLong m (p ∷ ps) = (m ≤ length p) × AllLong m ps

AllLong-left : (m : ℕ) (ps qs : List Bytes) → AllLong m (ps ++ qs) → AllLong m ps
AllLong-left m [] qs h = tt
AllLong-left m (p ∷ ps) qs h = (h.0, AllLong-left m ps qs h.1)

AllLong-right : (m : ℕ) (ps qs : List Bytes) → AllLong m (ps ++ qs) → AllLong m qs
AllLong-right m [] qs h = h
AllLong-right m (p ∷ ps) qs h = AllLong-right m ps qs h.1

pub AllLong-end :
    (m : ℕ) (ps : List Bytes) (p : Bytes) → AllLong m ps → m ≤ length p → AllLong m (ps ++ (p ∷ []))
AllLong-end m [] p h le = (le, tt)
AllLong-end m (q ∷ ps) p (le', h) le = (le', AllLong-end m ps p h le)

AllLong-bytes_of : (m : ℕ) (ps : List Bytes) → AllLong m ps → (m + 8) * length ps ≤ bytes_of ps
AllLong-bytes_of m [] h = omega arith
AllLong-bytes_of m (p ∷ ps) (le, h) = grind (arith, AllLong-bytes_of m ps h, bytes_of-cons p ps)

fewer : (m k n b : ℕ) → (m + 8) * n ≤ b → b < (m + 8) * k → n < k
fewer m k n b h lt = grind arith

-- The limits suit the payloads.
abbrev pub Suits : Config → List Bytes → Type 0
Suits c fs =
    (c.max_index_bytes % 12 ≡ 0)
    ⊎ ((m : ℕ) × (k : ℕ) × AllLong m fs
        × (c.max_store_bytes ≤ (m + 8) * k)
        × (12 * k ≤ c.max_index_bytes))

pub Suits-left : (c : Config) (fs gs : List Bytes) → Suits c (fs ++ gs) → Suits c fs
Suits-left c fs gs (inl aligned) = inl aligned
Suits-left c fs gs (inr (m, k, long, stored, indexed)) =
    inr (m, k, AllLong-left m fs gs long, stored, indexed)

pub Suits-take : (c : Config) (n : ℕ) (fs : List Bytes) → Suits c fs → Suits c (take n fs)
Suits-take c n fs h =
    Suits-left c (take n fs) (drop n fs) (subst (Suits c) (sym (take-append-drop n fs)) h)

-- A segment that is not maxed has room for an entry.
pub Suits-room :
    (c : Config) (before last : List Bytes)
    → Suits c (before ++ last)
    → bytes_of last < c.max_store_bytes
    → 12 * length last < c.max_index_bytes
    → 12 * length last + 12 ≤ c.max_index_bytes
Suits-room c before last (inl aligned) stored indexed = omega arith
Suits-room c before last (inr (m, k, long, store_le, index_le)) stored indexed = omega (
  arith,
  index_le,
  fewer m k (length last) (bytes_of last)
      (AllLong-bytes_of m last (AllLong-right m before last long)) (omega arith),
)

-- ===== src/Index/Mapped.antt =====
-- An index over the map of its file: opened on entries, and closed.
use smolkafka.Prelude.{
  ℕ, ◌+◌, ◌-◌, ◌*◌, ◌^◌, ◌≤◌, ◌<◌, ◌≡◌, refl, ◌∙◌, ap, false, true, List, ◌++◌, arith, length,
  length-append, append-nil, take, take-append, take-all, length-replicate, replicate,
}
use smolkafka.Exec.{err, eof}
use smolkafka.Exec.Returns.{Returns}
use smolkafka.Bytes.{Bytes}
use smolkafka.Platform.{Platform}
use smolkafka.Index.{Index, truncate, write, new_index, close}
use smolkafka.Index.Entries.{Shows, entries, length-entries}

pub truncate-grow :
    (n : ℕ) (b : Bytes) → length b ≤ n → truncate n b ≡ b ++ replicate (n - length b) 0
unfolding truncate
truncate-grow n b h = ap (λ c. c ++ replicate (n - length b) 0) (take-all n b h)

pub truncate-shrink : (n : ℕ) (b : Bytes) → n ≤ length b → truncate n b ≡ take n b
unfolding truncate
truncate-shrink n b h = ap (λ k. take n b ++ replicate k 0) none_left ∙ append-nil (take n b)
  where
    none_left : n - length b ≡ 0
    none_left = omega arith

pub length-truncate_grow : (n : ℕ) (b : Bytes) → length b ≤ n → length (truncate n b) ≡ n
length-truncate_grow n b h =
    ap length (truncate-grow n b h)
    ∙ length-append b (replicate (n - length b) 0)
    ∙ omega (arith, length-replicate {A = ℕ} (n - length b) 0)

-- An index opened on a file of entries, with a map at least as large, holds these entries.
pub new_index_lem :
    (os : Platform) (es : List (ℕ × ℕ)) (cap : ℕ)
    → 12 * length es ≤ cap
    → 0 < cap
    → cap < 2 ^ 63
    → Returns (new_index os cap (entries es)) (λ i _. Shows i es cap)
unfolding new_index
new_index_lem os es cap fits pos small = rw (os.map_file_lem grown (omega (arith, grown_len))) (
  record { mmap = grown; size = length (entries es); is_closed = false },
  refl,
  record {
    is_open = refl;
    holds =
        ap (take (length (entries es))) (truncate-grow cap (entries es) fits_bytes)
        ∙ take-append (length (entries es)) (entries es) _ refl;
    size_lem = length-entries es;
    cap_lem = grown_len;
    fits = fits_bytes;
    small = small;
  },
)
  where
    grown : Bytes
    grown = truncate cap (entries es)

    fits_bytes : length (entries es) ≤ cap
    fits_bytes = omega (arith, length-entries es)

    grown_len : length grown ≡ cap
    grown_len = length-truncate_grow cap (entries es) fits_bytes

-- `Close` leaves a file of exactly the entries.
pub close_lem :
    (os : Platform) (i : Index) (es : List (ℕ × ℕ)) (cap : ℕ)
    → Shows i es cap
    → Returns (close os i) (λ b j. (b ≡ entries es) × (j ≡ record i { is_closed = true }))
unfolding close
close_lem os i es cap h = rw (os.sync_lem i.mmap) (
  truncate i.size i.mmap,
  ground arith,
  (truncate-shrink i.size i.mmap in_map ∙ h.holds, ground arith),
)
  where
    in_map : i.size ≤ length i.mmap
    in_map = omega (arith, h.cap_lem, h.fits)

pub write-no_room :
    (i : Index) (off pos : ℕ)
    → length i.mmap < i.size + 12
    → i.size < 2 ^ 63
    → write off pos i ≡ (err eof, i)
unfolding write
write-no_room i off pos full small = ground arith

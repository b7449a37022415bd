-- ===== src/Index/Laws.antt =====
-- The operations of an index against its list of entries.
use smolkafka.Prelude.{
  ℕ, ◌+◌, ◌*◌, ◌%◌, ◌^◌, ◌≤◌, ◌<◌, ◌≡◌, refl, ◌∙◌, ap, sym, false, some, List, [], ◌∷◌, ◌++◌, arith,
  length, length-append, append_assoc, get_elem?, get_elem?-append_end, get_elem?-lt, take, drop,
  take-append-drop, take-append, length-take, length-drop, take-drop-middle, ltb,
}
use smolkafka.Exec.{ok, err, eof}
use smolkafka.Exec.Returns.{Returns}
use smolkafka.Bytes.{
  Bytes, ent_width, put_uint32, put_uint64, length-put_uint32, length-put_uint64,
  get_uint-put_uint32, get_uint-put_uint64,
}
use smolkafka.Index.{Index, add64, minus_one, last_entry, decode, read, write}
use smolkafka.Index.Entries.{
  Shows, entry, entries, length-entry, entries-append, entries-one, entries-split,
}

-- What `Read` finds at the place of an entry that `Write` could have written there.
decode-entry :
    (i : Index) (es : List (ℕ × ℕ)) (cap k off pos : ℕ)
    → Shows i es cap
    → get_elem? es k ≡ some (off, pos)
    → off < 2 ^ 32
    → pos < 2 ^ 64
    → decode i (k * 12) ≡ ok (off, pos)
unfolding decode
decode-entry i es cap k off pos h at small_off small_pos =
    let (xs, ys, split, before) = entries-split es k (off, pos) at in
    let rest = drop i.size i.mmap in
    let whole : i.mmap ≡ xs ++ (put_uint32 off ++ (put_uint64 pos ++ (ys ++ rest))) =
      sym (take-append-drop i.size i.mmap)
      ∙ ap (λ b. b ++ rest) (h.holds ∙ split)
      ∙ unfold entry in simp append_assoc in
    let off_at =
      take-drop-middle (k * 12) 4 xs (put_uint32 off) (put_uint64 pos ++ (ys ++ rest))
        (omega (arith, before)) (length-put_uint32 off) in
    let pos_at =
      take-drop-middle (k * 12 + 4) 8 (xs ++ put_uint32 off) (put_uint64 pos) (ys ++ rest)
        (length-append xs (put_uint32 off) ∙ omega (arith, before, length-put_uint32 off))
        (length-put_uint64 pos) in
    let off' : take 4 (drop (k * 12) i.mmap) ≡ put_uint32 off =
      ap (λ b. take 4 (drop (k * 12) b)) whole ∙ off_at in
    let pos' : take 8 (drop (k * 12 + 4) i.mmap) ≡ put_uint64 pos =
      ap (λ b. take 8 (drop (k * 12 + 4) b))
        (whole ∙ sym (append_assoc xs (put_uint32 off) (put_uint64 pos ++ (ys ++ rest))))
      ∙ pos_at in
    ground (
      arith,
      off',
      pos',
      get_uint-put_uint32 off small_off,
      get_uint-put_uint64 pos small_pos,
      get_elem?-lt es k at,
    )

-- `Read` of an entry's number on an index that holds the entry returns it, if its two numbers fit
-- their widths.
pub read-entry :
    (i : Index) (es : List (ℕ × ℕ)) (cap k off pos : ℕ)
    → Shows i es cap
    → get_elem? es k ≡ some (off, pos)
    → off < 2 ^ 32
    → pos < 2 ^ 64
    → k < 2 ^ 32
    → read k i ≡ ok (off, pos)
unfolding read
read-entry i es cap k off pos h at small_off small_pos small =
    ground
      (arith, get_elem?-lt es k at, decode-entry i es cap k off pos h at small_off small_pos, same)
  where
    same : k % 2 ^ 32 ≡ k
    same = omega arith

-- `Read(-1)` on an index that holds some entry returns the last one, if its two numbers fit their
-- widths.
pub read-last :
    (i : Index) (es : List (ℕ × ℕ)) (cap off pos : ℕ)
    → Shows i (es ++ ((off, pos) ∷ [])) cap
    → off < 2 ^ 32
    → pos < 2 ^ 64
    → length es < 2 ^ 32
    → read minus_one i ≡ ok (off, pos)
unfolding read
read-last i es cap off pos h small_off small_pos small = ground (
  arith,
  length-append es ((off, pos) ∷ []),
  number,
  decode-entry i (es ++ ((off, pos) ∷ [])) cap (length es) off pos h
      (get_elem?-append_end es (off, pos) (length es) refl) small_off small_pos,
)
  where
    number : last_entry i.size ≡ length es
    number = omega (arith, h.size_lem, length-append es ((off, pos) ∷ []))

-- On an empty index every `Read` answers EOF.
pub read-empty : (i : Index) (cap n : ℕ) → Shows i [] cap → read n i ≡ err eof
unfolding read
read-empty i cap n h = ground arith

-- Past the last entry `Read` answers EOF.
pub read-past :
    (i : Index) (es : List (ℕ × ℕ)) (cap n : ℕ)
    → Shows i es cap
    → length es ≤ n
    → n < 2 ^ 32
    → read n i ≡ err eof
unfolding read decode
read-past i es cap n h le small = ground (arith, same)
  where
    same : n % 2 ^ 32 ≡ n
    same = omega arith

-- The map after a write of an entry `e` at byte `n`.
abbrev written : Bytes → ℕ → ℕ × ℕ → Bytes
written m n (off, pos) = take n m ++ (put_uint32 off ++ (put_uint64 pos ++ drop (n + 12) m))

length-written :
    (m : Bytes) (n : ℕ) (e : ℕ × ℕ) → n + 12 ≤ length m → length (written m n e) ≡ length m
length-written m n (off, pos) h =
    length-append (take n m) (put_uint32 off ++ (put_uint64 pos ++ drop (n + 12) m))
    ∙ omega (
      arith,
      length-take n m,
      length-append (put_uint32 off) (put_uint64 pos ++ drop (n + 12) m),
      length-append (put_uint64 pos) (drop (n + 12) m),
      length-put_uint32 off,
      length-put_uint64 pos,
      length-drop (n + 12) m,
    )

take-written :
    (m : Bytes) (n : ℕ) (e : ℕ × ℕ)
    → n + 12 ≤ length m
    → take (n + 12) (written m n e) ≡ take n m ++ entry e
take-written m n (off, pos) h =
    ap (take (n + 12)) regroup
    ∙ take-append (n + 12) (take n m ++ entry (off, pos)) (drop (n + 12) m) (
        length-append (take n m) (entry (off, pos))
        ∙ omega (arith, length-take n m, length-entry (off, pos)))
  where
    regroup : written m n (off, pos) ≡ (take n m ++ entry (off, pos)) ++ drop (n + 12) m
    regroup = unfold entry in simp append_assoc

entries-end : (es : List (ℕ × ℕ)) (e : ℕ × ℕ) → entries (es ++ (e ∷ [])) ≡ entries es ++ entry e
entries-end es e = entries-append es (e ∷ []) ∙ ap (λ b. entries es ++ b) (entries-one e)

-- `Write` to an index with room for an entry succeeds, and the index then holds the entry behind
-- the others.
pub write-room :
    (i : Index) (es : List (ℕ × ℕ)) (cap off pos : ℕ)
    → Shows i es cap
    → i.size + 12 ≤ cap
    → Returns (write off pos i) (λ _ j. Shows j (es ++ ((off, pos) ∷ [])) cap)
unfolding write
write-room i es cap off pos h room = (
  tt,
  ground arith,
  rw fits (record {
    is_open = h.is_open;
    holds = rw no_wrap (
        take-written i.mmap i.size (off, pos) in_map
        ∙ ap (λ b. b ++ entry (off, pos)) h.holds
        ∙ sym (entries-end es (off, pos)));
    size_lem = omega (arith, no_wrap, length-append es ((off, pos) ∷ []));
    cap_lem = length-written i.mmap i.size (off, pos) in_map ∙ h.cap_lem;
    fits = omega (arith, no_wrap);
    small = h.small;
  }),
)
  where
    in_map : i.size + 12 ≤ length i.mmap
    in_map = omega (arith, h.cap_lem)

    no_wrap : add64 i.size ent_width ≡ i.size + 12
    no_wrap = omega arith

    fits : ltb (length i.mmap) (add64 i.size ent_width) ≡ false
    fits = ground arith

-- `Write` without room answers EOF and changes nothing.
pub write-full :
    (i : Index) (es : List (ℕ × ℕ)) (cap off pos : ℕ)
    → Shows i es cap
    → cap < i.size + 12
    → write off pos i ≡ (err eof, i)
unfolding write
write-full i es cap off pos h full = ground arith

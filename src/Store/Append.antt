-- ===== src/Store/Append.antt =====
-- `Append` of a store: it writes the frame of the record at the end, whatever is flushed meanwhile.
use mathlib.Core.Path.{subst}
use smolkafka.Prelude.{
  ℕ, ◌+◌, ◌-◌, ◌%◌, ◌^◌, ◌<◌, ◌≡◌, refl, ◌∙◌, ap, true, [], ◌∷◌, ◌++◌, arith, length, append_assoc,
  append-nil, take, drop, take-append-drop, Bool-cases, inl, inr, leb, ◌==◌,
}
use smolkafka.Exec.{Exec, pure, modify, ◌>>◌}
use smolkafka.Exec.Returns.{Returns, Returns-bind}
use smolkafka.Bytes.{Bytes, len_width, put_uint64}
use smolkafka.Store.{
  Store, buf_size, file_write, flush, write_rest, write_over, write_open, write, append,
}
use smolkafka.Store.Frames.{Shows, frame}

-- `Flush` puts the buffer on file and changes nothing that the store shows.
pub flush-Shows :
    (s : Store) (b : Bytes) (n : ℕ)
    → Shows s b n
    → Returns (flush s) (λ _ t. Shows t b n × (t.buf ≡ []))
unfolding flush file_write
flush-Shows s b n h =
    ground (arith, append-nil (s.file.contents ++ s.buf), append-nil s.file.contents)

buffer-Shows :
    (p : Bytes) (s : Store) (b : Bytes) (n : ℕ)
    → Shows s b n
    → Shows (record s { buf = s.buf ++ p }) (b ++ p) n
buffer-Shows p s b n h = ground (arith, append_assoc s.file.contents s.buf p)

write_file-Shows :
    (p : Bytes) (s : Store) (b : Bytes) (n : ℕ)
    → s.buf ≡ []
    → Shows s b n
    → Returns (file_write p s) (λ _ t. Shows t (b ++ p) n)
unfolding file_write
write_file-Shows p s b n e h =
    ground (arith, append-nil s.file.contents, append-nil (s.file.contents ++ p))

write_rest-Shows :
    (p : Bytes) (s : Store) (b : Bytes) (n : ℕ)
    → s.buf ≡ []
    → Shows s b n
    → Returns (write_rest p s) (λ _ t. Shows t (b ++ p) n)
unfolding write_rest
write_rest-Shows p s b n e h = elim (Bool-cases (leb (length p) buf_size)) [
  | inl fits ↦ rw fits (tt, refl, buffer-Shows p s b n h)
  | inr large ↦ rw large (write_file-Shows p s b n e h)
]

write_over-Shows :
    (room : ℕ) (p : Bytes) (s : Store) (b : Bytes) (n : ℕ)
    → Shows s b n
    → Returns (write_over room p s) (λ _ t. Shows t (b ++ p) n)
unfolding write_over
write_over-Shows room p s b n h =
    let filled : Store = record s { buf = s.buf ++ take room p } in
    Returns-bind flush (λ _. write_rest (drop room p)) filled
      (λ _ t. Shows t (b ++ take room p) n × (t.buf ≡ [])) (λ _ t. Shows t (b ++ p) n)
      (flush-Shows filled (b ++ take room p) n (buffer-Shows (take room p) s b n h))
      (λ _ t (k, e).
        subst (λ c. Returns (write_rest (drop room p) t) (λ _ u. Shows u c n))
          (append_assoc b (take room p) (drop room p) ∙ ap (λ c. b ++ c) (take-append-drop room p))
          (write_rest-Shows (drop room p) t (b ++ take room p) n e k))

empty_of_length : (b : Bytes) → (length b == 0) ≡ true → b ≡ []
empty_of_length [] h = refl
empty_of_length (x ∷ b) h = absurd (ground arith)

write_open-Shows :
    (room : ℕ) (p : Bytes) (s : Store) (b : Bytes) (n : ℕ)
    → Shows s b n
    → Returns (write_open room p s) (λ _ t. Shows t (b ++ p) n)
unfolding write_open
write_open-Shows room p s b n h = elim (Bool-cases (leb (length p) room)) [
  | inl fits ↦ rw fits (tt, refl, buffer-Shows p s b n h)
  | inr large ↦ rw large (elim (Bool-cases (length s.buf == 0)) [
    | inl e ↦ rw e (write_file-Shows p s b n (empty_of_length s.buf e) h)
    | inr ne ↦ rw ne (write_over-Shows room p s b n h)
  ])
]

write-Shows :
    (p : Bytes) (s : Store) (b : Bytes) (n : ℕ)
    → Shows s b n
    → Returns (write p s) (λ _ t. Shows t (b ++ p) n)
unfolding write
write-Shows p s b n h = simp h.not_failed (write_open-Shows (buf_size - length s.buf) p s b n h)

-- What `Append` of `p` returns and leaves, where the store showed `b` and the size `n`.
abbrev pub Appended : Bytes → Bytes → ℕ → ℕ × ℕ → Store → Type 0
Appended p b n r t = (r ≡ (length p + 8, n)) × Shows t (b ++ frame p) (n + length p + 8)

-- `Append` on an open store returns the number of bytes of the record's frame and the old size as
-- its position, and puts the frame behind what the store showed, buffered or not, if the size
-- stays below 2 ^ 64.
pub store_append_lem :
    (p : Bytes) (s : Store) (b : Bytes) (n : ℕ)
    → Shows s b n
    → n + length p + 8 < 2 ^ 64
    → Returns (append p s) (Appended p b n)
unfolding append frame
store_append_lem p s b n h small =
    let header : Bytes = put_uint64 (length p) in
    Returns-bind (write header) (λ _. write p >> advance) s (λ _ t. Shows t (b ++ header) n)
      (Appended p b n) (write-Shows header s b n h)
      (λ _ t k.
        Returns-bind (write p) (λ _. advance) t (λ _ u. Shows u ((b ++ header) ++ p) n)
          (Appended p b n) (write-Shows p t (b ++ header) n k)
          (λ _ u l. (
            (length p + 8, s.size),
            refl,
            (ap (λ k. (length p + 8, k)) h.size_lem, ground (arith, append_assoc b header p)),
          )))
  where
    advance : Exec Store (ℕ × ℕ)
    advance =
        modify (λ (s : Store). record s { size = (s.size + (length p + len_width)) % 2 ^ 64 })
        >> pure (length p + len_width, s.size)

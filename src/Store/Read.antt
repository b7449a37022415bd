-- ===== src/Store/Read.antt =====
-- `Read`, `ReadAt` and `Close` of a store. A read flushes first, so it sees what is still buffered.
use smolkafka.Prelude.{
  ℕ, ◌+◌, ◌%◌, ◌^◌, ◌<◌, ◌≡◌, refl, ◌∙◌, sym, ap, true, false, [], ◌∷◌, ◌++◌, arith, length,
  length-append, append_assoc, append-nil, take, drop, take-drop-middle, ltb,
}
use smolkafka.Exec.{ok, Exec, ◌>>=◌}
use smolkafka.Exec.Returns.{Returns, Returns-bind}
use smolkafka.Bytes.{Bytes, len_width, put_uint64, get_uint, get_uint-put_uint64, length-put_uint64}
use smolkafka.Store.{Store, File, flush, file_read_at, read, read_at, close, new_store}
use smolkafka.Store.Frames.{Shows, frame, length-frame}
use smolkafka.Store.Append.{flush-Shows}

-- A read inside an open file returns the bytes there.
file_read_at-middle :
    (f : File) (n k : ℕ) (xs ys zs : Bytes)
    → f.is_closed ≡ false
    → f.contents ≡ xs ++ (ys ++ zs)
    → length xs ≡ k
    → length ys ≡ n
    → k + n < 2 ^ 63
    → file_read_at f n k ≡ ok ys
unfolding file_read_at
file_read_at-middle f n k xs ys zs c e hx hy small = ground (
  arith,
  length-append xs (ys ++ zs),
  length-append ys zs,
  take-drop-middle k n xs ys zs hx hy,
  empty_of_none ys,
)
  where
    empty_of_none : (ys : Bytes) → length ys ≡ 0 → ys ≡ []
    empty_of_none [] h = refl
    empty_of_none (y ∷ ys) h = absurd (omega arith)

-- With nothing buffered the file holds all that the store shows.
contents-flushed : (t : Store) (b : Bytes) (n : ℕ) → Shows t b n → t.buf ≡ [] → t.file.contents ≡ b
contents-flushed t b n k e =
    sym (append-nil t.file.contents) ∙ ap (λ c. t.file.contents ++ c) (sym e) ∙ k.bytes_lem

-- The two reads of `Read`, of a header and of the payload behind it.
module _ (f : File) (xs p zs : Bytes) (c : f.is_closed ≡ false)
    (e : f.contents ≡ xs ++ (frame p ++ zs)) (small : length (xs ++ (frame p ++ zs)) < 2 ^ 63) where
  fits : length xs + 8 + length p < 2 ^ 63
  fits = omega (arith, length-append xs (frame p ++ zs), length-append (frame p) zs, length-frame p)

  read_header : file_read_at f len_width (length xs) ≡ ok (put_uint64 (length p))
  read_header =
      file_read_at-middle f 8 (length xs) xs (put_uint64 (length p)) (p ++ zs) c
        (e ∙ ap (λ b. xs ++ b) (unfold frame in append_assoc (put_uint64 (length p)) p zs)) refl
        (length-put_uint64 (length p)) (omega (arith, fits))

  read_payload :
      file_read_at f (get_uint (put_uint64 (length p))) ((length xs + len_width) % 2 ^ 64) ≡ ok p
  read_payload =
      rw (get_uint-put_uint64 (length p) (omega (arith, fits)), no_wrap)
        (file_read_at-middle f (length p) (length xs + 8) (xs ++ put_uint64 (length p)) p zs c
          (e ∙ unfold frame in simp append_assoc)
          (length-append xs (put_uint64 (length p)) ∙ omega (arith, length-put_uint64 (length p)))
          refl (omega (arith, fits)))
    where
      no_wrap : (length xs + len_width) % 2 ^ 64 ≡ length xs + 8
      no_wrap = omega (arith, fits)

-- `Read` at the position of a record's frame returns its payload, buffered or not, and changes
-- nothing that the store shows, if the store is smaller than 2 ^ 63 bytes.
pub store_read_lem :
    (s : Store) (xs p zs : Bytes) (n : ℕ)
    → Shows s (xs ++ (frame p ++ zs)) n
    → length (xs ++ (frame p ++ zs)) < 2 ^ 63
    → Returns (read (length xs) s) (λ q t. (q ≡ p) × Shows t (xs ++ (frame p ++ zs)) n)
unfolding read
store_read_lem s xs p zs n h small =
    Returns-bind flush (λ _. read_parts) s (λ _ t. Shows t (xs ++ (frame p ++ zs)) n × (t.buf ≡ []))
      (λ q t. (q ≡ p) × Shows t (xs ++ (frame p ++ zs)) n)
      (flush-Shows s (xs ++ (frame p ++ zs)) n h)
      (λ _ t (k, e).
        let on_file = contents-flushed t (xs ++ (frame p ++ zs)) n k e in
        let header = read_header t.file xs p zs k.is_open on_file small in
        let payload = read_payload t.file xs p zs k.is_open on_file small in
        (p, rw (header, payload), (refl, rw header k)))
  where
    read_parts : Exec Store Bytes
    read_parts = do
      size ← λ s. (file_read_at s.file len_width (length xs), s)
      λ s. (file_read_at s.file (get_uint size) ((length xs + len_width) % 2 ^ 64), s)

-- `ReadAt` from an offset below 2 ^ 63 on an open store returns the bytes that stand there,
-- buffered or not, and says whether they are fewer than asked for.
pub read_at_lem :
    (s : Store) (b : Bytes) (n m k : ℕ)
    → Shows s b n
    → k < 2 ^ 63
    → Returns
        (read_at m k s)
        (λ r t. (r ≡ (take m (drop k b), ltb (length b) (k + m))) × Shows t b n)
unfolding read_at
read_at_lem s b n m k h small =
    Returns-bind flush _ s (λ _ t. Shows t b n × (t.buf ≡ []))
      (λ r t. (r ≡ (take m (drop k b), ltb (length b) (k + m))) × Shows t b n) (flush-Shows s b n h)
      (λ _ t (l, e). (
        (take m (drop k b), ltb (length b) (k + m)),
        ground (arith, contents-flushed t b n l e),
        ground arith,
      ))

-- `Close` leaves the whole contents on file.
pub close_lem :
    (s : Store) (b : Bytes) (n : ℕ)
    → Shows s b n
    → Returns (close s) (λ _ t. (t.file.is_closed ≡ true) × (t.file.contents ≡ b))
unfolding close
close_lem s b n h =
    Returns-bind flush _ s (λ _ t. Shows t b n × (t.buf ≡ []))
      (λ _ t. (t.file.is_closed ≡ true) × (t.file.contents ≡ b)) (flush-Shows s b n h)
      (λ _ t (l, e). ground (arith, contents-flushed t b n l e))

-- A store opened on a file shows what the file holds.
pub new_store-Shows : (b : Bytes) → Shows (new_store b) b (length b)
unfolding new_store
new_store-Shows b = ground (arith, append-nil b)

-- ===== src/Store.antt =====
-- internal/log/store.go: a file of records behind a buffered writer. `os.File` and `bufio.Writer`
-- are modelled by what the code uses of them. A method runs under the store's mutex, so it is one
-- step. The proofs are in the modules below.
pub mod Frames
pub mod Append
pub mod Read
pub mod Position
use smolkafka.Prelude.{
  ℕ, ◌+◌, ◌-◌, ◌%◌, ◌^◌, Bool, true, false, List, [], ◌∷◌, ◌++◌, ltb, leb, ◌==◌, if◌then◌else◌,
  length, take, drop,
}
use smolkafka.Exec.{
  Error, eof, closed, negative_offset, Result, ok, err, Exec, pure, lift, gets, modify, ◌>>=◌, ◌>>◌,
}
use smolkafka.Bytes.{Bytes, len_width, put_uint64, get_uint}

-- `os.File`, opened with O_APPEND. `pos` is the position of its descriptor, at which a read without a
-- position of its own goes on: 0 when it is opened, and the end of the file after a write.
pub record File : Type 0 where
  pub contents : Bytes
  pub pos : ℕ
  pub is_closed : Bool

-- `store`; `buf` and `failed` are the `bufio.Writer`'s: what waits, and whether a write has failed.
pub record Store : Type 0 where
  pub file : File
  pub buf : Bytes
  pub failed : Bool
  pub size : ℕ

-- `bufio.NewWriter`'s `defaultBufSize`.
abbrev pub buf_size : ℕ
buf_size = 4096

abbrev put_file : Bytes → Store → Store
put_file p s = record s {
  file = record s.file { contents = s.file.contents ++ p; pos = length s.file.contents + length p };
  buf = [];
}

-- `os.File.Write` of the bytes `p`, called by the writer when it holds nothing else.
pub file_write : Bytes → Exec Store Unit
file_write p s =
    if s.file.is_closed then (err closed, record s { failed = true }) else (ok tt, put_file p s)

-- `bufio.Writer.Flush`.
pub flush : Exec Store Unit
flush s =
    if s.failed
    then (err closed, s)
    else if length s.buf == 0
    then (ok tt, s)
    else file_write s.buf s

abbrev buffer : Bytes → Exec Store Unit
buffer p s = (ok tt, record s { buf = s.buf ++ p })

-- The rounds of `bufio.Writer.Write` with an empty buffer: a write that does not fit goes straight
-- to the file.
pub write_rest : Bytes → Exec Store Unit
write_rest p s = if leb (length p) buf_size then buffer p s else file_write p s

-- The round that fills the buffer, with room for `room` bytes, and flushes it.
pub write_over : ℕ → Bytes → Exec Store Unit
write_over room p = do buffer (take room p); flush; write_rest (drop room p)

-- The rounds of a writer that has not failed and has room for `room` bytes.
pub write_open : ℕ → Bytes → Exec Store Unit
write_open room p s =
    if leb (length p) room
    then buffer p s
    else if length s.buf == 0
    then file_write p s
    else write_over room p s

-- `bufio.Writer.Write`: what does not fit fills the buffer and flushes it first.
pub write : Bytes → Exec Store Unit
write p s = if s.failed then (err closed, s) else write_open (buf_size - length s.buf) p s

-- `newStore`, on a file with these contents.
pub new_store : Bytes → Store
new_store contents = record {
  file = record { contents = contents; pos = 0; is_closed = false };
  buf = [];
  failed = false;
  size = length contents;
}

-- `Append`: the number of bytes written, and the position of the record.
pub append : Bytes → Exec Store (ℕ × ℕ)
append p = do
  pos ← gets (λ s. s.size)
  write (put_uint64 (length p))
  write p
  let w = length p + len_width
  modify (λ s. record s { size = (s.size + w) % 2 ^ 64 })
  pure (w, pos)

-- `os.File.ReadAt` into `n` bytes, at the `int64` with the bits of `pos`.
pub file_read_at : File → ℕ → ℕ → Result Bytes
file_read_at f n pos =
    if leb (2 ^ 63) pos
    then err negative_offset
    else if n == 0
    then ok []
    else if f.is_closed
    then err closed
    else if leb (pos + n) (length f.contents)
    then ok (take n (drop pos f.contents))
    else err eof

-- `Read`: the payload of the record at a position. A size that is too large to be allocated, which no
-- `Append` writes, is not told from one that is past the end.
pub read : ℕ → Exec Store Bytes
read pos = do
  flush
  size ← λ s. (file_read_at s.file len_width pos, s)
  λ s. (file_read_at s.file (get_uint size) ((pos + len_width) % 2 ^ 64), s)

-- `ReadAt`, into `n` bytes. What was read before an end of file comes back beside the error.
pub read_at : ℕ → ℕ → Exec Store (Bytes × Bool)
read_at n off = do
  flush
  λ s.
      if leb (2 ^ 63) off
      then (err negative_offset, s)
      else if s.file.is_closed
      then (err closed, s)
      else (ok (take n (drop off s.file.contents), ltb (length s.file.contents) (off + n)), s)

-- `os.File.WriteTo`, which a store has from the file that it embeds: what the file holds from the
-- descriptor's position on. It takes no lock and does not flush.
unfoldable pub write_to : Exec Store Bytes
write_to s =
    let p = drop s.file.pos s.file.contents in
    if s.file.is_closed
    then (err closed, s)
    else (ok p, record s { file = record s.file { pos = s.file.pos + length p } })

-- `Close`: nothing stays in the buffer alone.
pub close : Exec Store Unit
close = do
  flush
  λ s.
      if s.file.is_closed
      then (err closed, s)
      else (ok tt, record s { file = record s.file { is_closed = true } })

-- ===== src/Index.antt =====
-- internal/log/index.go: entries of a fixed width in a memory-mapped file. The map is shared, so
-- while the index is open its bytes are the file's.
pub mod Entries
pub mod Mapped
pub mod Laws
use smolkafka.Prelude.{
  ℕ, ◌+◌, ◌-◌, ◌*◌, ◌/◌, ◌%◌, ◌^◌, Bool, true, false, ◌++◌, ltb, leb, ◌==◌, if◌then◌else◌, length,
  take, drop, replicate,
}
use smolkafka.Exec.{
  Result, ok, err, eof, closed, panic, Exec, pure, lift, gets, modify, ◌>>=◌, ◌>>◌,
}
use smolkafka.Bytes.{Bytes, off_width, pos_width, ent_width, put_uint32, put_uint64, get_uint}
use smolkafka.Platform.{Platform}

-- `index`; `mmap` stands for the file's contents too.
pub record Index : Type 0 where
  pub mmap : Bytes
  pub size : ℕ
  pub is_closed : Bool

-- `os.Truncate`: a file that is too short is filled up with zeros.
unfoldable pub truncate : ℕ → Bytes → Bytes
truncate n b = take n b ++ replicate (n - length b) 0

-- `uint64` addition.
abbrev pub add64 : ℕ → ℕ → ℕ
add64 a b = (a + b) % 2 ^ 64

-- The bits of the `int64` -1.
abbrev pub minus_one : ℕ
minus_one = 2 ^ 64 - 1

-- `uint32((i.size / entWidth) - 1)`.
abbrev pub last_entry : ℕ → ℕ
last_entry size = (size / ent_width + 2 ^ 64 - 1) % 2 ^ 64 % 2 ^ 32

-- The slices of the map from which `Read` decodes an entry at byte `pos`.
pub decode : Index → ℕ → Result (ℕ × ℕ)
decode i pos =
    if ltb i.size (pos + ent_width)
    then err eof
    else if ltb (length i.mmap) (pos + ent_width)
    then err panic
    else ok (
      get_uint (take off_width (drop pos i.mmap)),
      get_uint (take pos_width (drop (pos + off_width) i.mmap)),
    )

-- `Read`, of the entry whose number is the `int64` with the bits `n`, or of the last one at -1.
-- The product and the sum below 2 ^ 36 cannot wrap.
pub read : ℕ → Index → Result (ℕ × ℕ)
read n i =
    if i.size == 0
    then err eof
    else decode i ((if n == minus_one then last_entry i.size else n % 2 ^ 32) * ent_width)

-- `Write`: the entry goes to the end, if the map has room for it.
pub write : ℕ → ℕ → Exec Index Unit
write off pos i = if ltb (length i.mmap) (add64 i.size ent_width) then (err eof, i) else (
  ok tt,
  record i {
    mmap =
        take i.size i.mmap
        ++ (put_uint32 off ++ (put_uint64 pos ++ drop (i.size + ent_width) i.mmap));
    size = add64 i.size ent_width;
  },
)

module _ (os : Platform) where
  -- `newIndex`, on a file with the contents that are the state.
  pub new_index : ℕ → Exec Bytes Index
  new_index max_index_bytes = do
    size ← gets (λ contents. length contents)
    modify (truncate max_index_bytes)
    mmap ← λ contents. (os.map_file contents, contents)
    pure (record { mmap = mmap; size = size; is_closed = false })

  -- `Close`: the file is synced, cut after its last entry and closed. The result is what the file
  -- holds then. The map stays.
  pub close : Exec Index Bytes
  close = do
    synced ← λ i. (os.sync i.mmap, i)
    λ i.
        if i.is_closed
        then (err closed, i)
        else (ok (truncate i.size synced), record i { is_closed = true })

-- ===== src/Bytes.antt =====
-- `encoding/binary`'s `BigEndian`, the `enc` of internal/log/store.go: unsigned integers as bytes,
-- the most significant first. A byte is a number; those that `put` writes are below 256.
use native.Mathlib.Nat.{pow-suc}
use smolkafka.Prelude.{
  ℕ, zero, suc, ◌+◌, ◌*◌, ◌/◌, ◌%◌, ◌^◌, ◌<◌, ◌≡◌, refl, ◌∙◌, ap, List, [], ◌∷◌, ◌++◌, arith,
  length, length-append,
}

abbrev pub Bytes : Type 0
Bytes = List ℕ

-- The `n` low bytes of `v`.
put : ℕ → ℕ → Bytes
put zero v = []
put (suc n) v = put n (v / 256) ++ (v % 256 ∷ [])

-- The number that bytes stand for, behind the number `acc` of those read before.
get : ℕ → Bytes → ℕ
get acc [] = acc
get acc (b ∷ bs) = get (acc * 256 + b) bs

-- `lenWidth`, and the widths of an index entry.
abbrev pub len_width : ℕ
len_width = 8

abbrev pub off_width : ℕ
off_width = 4

abbrev pub pos_width : ℕ
pos_width = 8

abbrev pub ent_width : ℕ
ent_width = off_width + pos_width

-- `PutUint64` and `Uint64`, `PutUint32` and `Uint32`.
unfoldable pub put_uint64 : ℕ → Bytes
unfolding put
put_uint64 v = put 8 v

unfoldable pub put_uint32 : ℕ → Bytes
unfolding put
put_uint32 v = put 4 v

unfoldable pub get_uint : Bytes → ℕ
unfolding get
get_uint bs = get 0 bs

length-put : (n v : ℕ) → length (put n v) ≡ n
unfolding put
length-put zero v = refl
length-put (suc n) v =
    length-append (put n (v / 256)) (v % 256 ∷ []) ∙ omega (arith, length-put n (v / 256))

get-append : (acc : ℕ) (xs ys : Bytes) → get acc (xs ++ ys) ≡ get (get acc xs) ys
unfolding get
get-append acc [] ys = refl
get-append acc (x ∷ xs) ys = get-append (acc * 256 + x) xs ys

div-lt-pow : (n v : ℕ) → v < 256 ^ suc n → v / 256 < 256 ^ n
div-lt-pow n v h = omega (arith, pow-suc 256 n)

get-put : (n v : ℕ) → v < 256 ^ n → get 0 (put n v) ≡ v
unfolding get put
get-put zero v h = omega arith
get-put (suc n) v h =
    get-append 0 (put n (v / 256)) (v % 256 ∷ [])
    ∙ ap (λ t. t * 256 + v % 256) (get-put n (v / 256) (div-lt-pow n v h))
    ∙ omega arith

pub length-put_uint64 : (v : ℕ) → length (put_uint64 v) ≡ 8
unfolding put_uint64
length-put_uint64 v = length-put 8 v

pub length-put_uint32 : (v : ℕ) → length (put_uint32 v) ≡ 4
unfolding put_uint32
length-put_uint32 v = length-put 4 v

-- Eight bytes written for a number below 2 ^ 64 are read back as that number.
pub get_uint-put_uint64 : (v : ℕ) → v < 2 ^ 64 → get_uint (put_uint64 v) ≡ v
unfolding put_uint64 get_uint
get_uint-put_uint64 v h = get-put 8 v h

pub get_uint-put_uint32 : (v : ℕ) → v < 2 ^ 32 → get_uint (put_uint32 v) ≡ v
unfolding put_uint32 get_uint
get_uint-put_uint32 v h = get-put 4 v h

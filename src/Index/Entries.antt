-- ===== src/Index/Entries.antt =====
-- What an index holds: a list of entries, then room.
use smolkafka.Prelude.{
  ℕ, zero, suc, ◌*◌, ◌^◌, ◌≤◌, ◌<◌, ◌≡◌, refl, ◌∙◌, ap, false, some, List, [], ◌∷◌, ◌++◌, arith,
  length, length-append, append_assoc, append-nil, get_elem?, take, sym,
}
use smolkafka.Bytes.{Bytes, put_uint32, put_uint64, length-put_uint32, length-put_uint64}
use smolkafka.Index.{Index}

-- An offset and a position, as `Write` lays them out.
unfoldable pub entry : ℕ × ℕ → Bytes
entry (off, pos) = put_uint32 off ++ put_uint64 pos

pub entries : List (ℕ × ℕ) → Bytes
entries [] = []
entries (e ∷ es) = entry e ++ entries es

-- An open index whose map has `cap` bytes and begins with the entries `es`.
pub record Shows (i : Index) (es : List (ℕ × ℕ)) (cap : ℕ) : Type 0 where
  pub is_open : i.is_closed ≡ false
  pub holds : take i.size i.mmap ≡ entries es
  pub size_lem : i.size ≡ 12 * length es
  pub cap_lem : length i.mmap ≡ cap
  pub fits : i.size ≤ cap
  pub small : cap < 2 ^ 63

pub length-entry : (e : ℕ × ℕ) → length (entry e) ≡ 12
unfolding entry
length-entry (off, pos) =
    length-append (put_uint32 off) (put_uint64 pos)
    ∙ omega (arith, length-put_uint32 off, length-put_uint64 pos)

pub length-entries : (es : List (ℕ × ℕ)) → length (entries es) ≡ 12 * length es
unfolding entries
length-entries [] = refl
length-entries (e ∷ es) =
    length-append (entry e) (entries es) ∙ omega (arith, length-entry e, length-entries es)

pub entries-append : (es fs : List (ℕ × ℕ)) → entries (es ++ fs) ≡ entries es ++ entries fs
unfolding entries
entries-append [] fs = refl
entries-append (e ∷ es) fs =
    ap (λ b. entry e ++ b) (entries-append es fs)
    ∙ sym (append_assoc (entry e) (entries es) (entries fs))

-- An entry stands behind the entries before it.
pub entries-split :
    (es : List (ℕ × ℕ)) (k : ℕ) (e : ℕ × ℕ)
    → get_elem? es k ≡ some e
    → (xs ys : Bytes) × (entries es ≡ xs ++ (entry e ++ ys)) × (length xs ≡ 12 * k)
unfolding entries
entries-split [] k e h = cc
entries-split (f ∷ es) zero e h = ([], entries es, cc, refl)
entries-split (f ∷ es) (suc k) e h =
    let (xs, ys, split, at) = entries-split es k e h in
    (
      entry f ++ xs,
      ys,
      ap (λ b. entry f ++ b) split ∙ sym (append_assoc (entry f) xs (entry e ++ ys)),
      length-append (entry f) xs ∙ omega (arith, at, length-entry f),
    )

pub entries-one : (e : ℕ × ℕ) → entries (e ∷ []) ≡ entry e
unfolding entries
entries-one e = append-nil (entry e)

pub entries-nil : entries [] ≡ []
unfolding entries
entries-nil = refl

-- ===== src/Disk/Listing.antt =====
-- The names of a directory's files, in the order in which the files were made.
use smolkafka.Prelude.{
  ℕ, ◌^◌, ◌<◌, ◌≡◌, refl, ◌∙◌, ap, Bool, true, false, ◌||◌, none, List, [], ◌∷◌, ◌++◌, arith,
  append_assoc, if◌then◌else◌,
}
use smolkafka.Bytes.{Bytes}
use smolkafka.Disk.{Name, name_eq, name_eq_refl, eq_of_name_eq, Files, lookup, put, without}
use smolkafka.Names.{store_name, index_name, names_differ, segments_differ}

abbrev pub file_names : Files → List Name
file_names [] = []
file_names ((n, b) ∷ fs) = n ∷ file_names fs

abbrev pub has_name : Name → List Name → Bool
has_name n [] = false
has_name n (m ∷ ms) = name_eq m n || has_name n ms

-- What a write and a removal do to the names.
abbrev pub put_name : Name → List Name → List Name
put_name n [] = n ∷ []
put_name n (m ∷ ms) = if name_eq m n then n ∷ ms else m ∷ put_name n ms

abbrev pub drop_name : Name → List Name → List Name
drop_name n [] = []
drop_name n (m ∷ ms) = let rest = drop_name n ms in if name_eq m n then rest else m ∷ rest

pub file_names-put :
    (n : Name) (b : Bytes) (fs : Files) → file_names (put n b fs) ≡ put_name n (file_names fs)
unfolding put
file_names-put n b [] = refl
file_names-put n b ((m, c) ∷ fs) = ground (arith, file_names-put n b fs)

pub file_names-without :
    (n : Name) (fs : Files) → file_names (without n fs) ≡ drop_name n (file_names fs)
unfolding without
file_names-without n [] = refl
file_names-without n ((m, c) ∷ fs) = ground (arith, file_names-without n fs)

pub put_name-has : (n : Name) (ns : List Name) → has_name n ns ≡ true → put_name n ns ≡ ns
put_name-has n [] h = cc
put_name-has n (m ∷ ms) h = ground (arith, eq_of_name_eq m n, put_name-has n ms)

pub put_name-new :
    (n : Name) (ns : List Name) → has_name n ns ≡ false → put_name n ns ≡ ns ++ (n ∷ [])
put_name-new n [] h = refl
put_name-new n (m ∷ ms) h = ground (arith, put_name-new n ms)

pub drop_name-new : (n : Name) (ns : List Name) → has_name n ns ≡ false → drop_name n ns ≡ ns
drop_name-new n [] h = refl
drop_name-new n (m ∷ ms) h = ground (arith, drop_name-new n ms)

pub has_name-append :
    (n : Name) (xs ys : List Name) → has_name n (xs ++ ys) ≡ (has_name n xs || has_name n ys)
has_name-append n [] ys = refl
has_name-append n (x ∷ xs) ys = ground (arith, has_name-append n xs ys)

-- A file that cannot be found is not listed, and one that is listed is found.
pub has_name-none :
    (n : Name) (fs : Files) → lookup n fs ≡ none → has_name n (file_names fs) ≡ false
unfolding lookup
has_name-none n [] h = refl
has_name-none n ((m, c) ∷ fs) h = ground (arith, has_name-none n fs)

-- The names of the files of the segments that begin at these offsets.
abbrev pub names_of : List ℕ → List Name
names_of [] = []
names_of (b ∷ bs) = store_name b ∷ index_name b ∷ names_of bs

pub names_of-append : (bs cs : List ℕ) → names_of (bs ++ cs) ≡ names_of bs ++ names_of cs
names_of-append [] cs = refl
names_of-append (b ∷ bs) cs = ap (λ ns. store_name b ∷ index_name b ∷ ns) (names_of-append bs cs)

-- The offsets are all above `b`, and small.
abbrev pub AllAbove : ℕ → List ℕ → Type 0
AllAbove b [] = Unit
AllAbove b (c ∷ cs) = (b < c) × (c < 2 ^ 63) × AllAbove b cs

-- The files of a segment below are not among them.
pub not_listed :
    (b : ℕ) (bs : List ℕ)
    → b < 2 ^ 63
    → AllAbove b bs
    → (has_name (store_name b) (names_of bs) ≡ false)
      × (has_name (index_name b) (names_of bs) ≡ false)
not_listed b [] small h = (refl, refl)
not_listed b (c ∷ cs) small (lt, c_small, h) =
    let (ss, ii, si, is) = segments_differ c b (omega arith) (omega arith) (omega arith) in
    let (no_store, no_index) = not_listed b cs small h in (ground arith, ground arith)

-- Offsets of segments in order, all small.
abbrev pub Increasing : List ℕ → Type 0
Increasing [] = Unit
Increasing (b ∷ bs) = (b < 2 ^ 63) × AllAbove b bs × Increasing bs

-- What the creation, the closing and the removal of a segment do to the names.
abbrev pub names_made : ℕ → List Name → List Name
names_made b ns = put_name (index_name b) (put_name (index_name b) (put_name (store_name b) ns))

abbrev pub names_closed : ℕ → List Name → List Name
names_closed b ns = put_name (store_name b) (put_name (index_name b) ns)

abbrev pub names_removed : ℕ → List Name → List Name
names_removed b ns = drop_name (store_name b) (drop_name (index_name b) (names_closed b ns))

-- A segment's files are among those of its list.
pub has_name-names_of :
    (b : ℕ) (bs cs : List ℕ)
    → (has_name (store_name b) (names_of (bs ++ (b ∷ cs))) ≡ true)
      × (has_name (index_name b) (names_of (bs ++ (b ∷ cs))) ≡ true)
has_name-names_of b [] cs =
    (ground (arith, name_eq_refl (store_name b)), ground (arith, name_eq_refl (index_name b)))
has_name-names_of b (c ∷ bs) cs =
    let (s, i) = has_name-names_of b bs cs in (ground arith, ground arith)

-- To close a segment makes no file.
pub names_closed-names_of :
    (b : ℕ) (bs cs : List ℕ)
    → names_closed b (names_of (bs ++ (b ∷ cs))) ≡ names_of (bs ++ (b ∷ cs))
names_closed-names_of b bs cs =
    let (s, i) = has_name-names_of b bs cs in
    ap (put_name (store_name b)) (put_name-has (index_name b) (names_of (bs ++ (b ∷ cs))) i)
    ∙ put_name-has (store_name b) (names_of (bs ++ (b ∷ cs))) s

-- The first segment's files go, and the others stay.
pub names_removed-names_of :
    (b : ℕ) (bs : List ℕ)
    → b < 2 ^ 63
    → AllAbove b bs
    → names_removed b (names_of (b ∷ bs)) ≡ names_of bs
names_removed-names_of b bs small above =
    let (no_store, no_index) = not_listed b bs small above in
    let differ = names_differ b in
    ap (λ ns. drop_name (store_name b) (drop_name (index_name b) ns))
      (names_closed-names_of b [] bs)
    ∙ ground (
      arith,
      name_eq_refl (store_name b),
      name_eq_refl (index_name b),
      drop_name-new (index_name b) (names_of bs) no_index,
      drop_name-new (store_name b) (names_of bs) no_store,
    )

-- A new segment's two files come behind all others.
pub names_made_lem :
    (b : ℕ) (ns : List Name)
    → has_name (store_name b) ns ≡ false
    → has_name (index_name b) ns ≡ false
    → names_made b ns ≡ ns ++ (store_name b ∷ index_name b ∷ [])
names_made_lem b ns no_store no_index =
    let s = store_name b in
    let i = index_name b in
    let differ = names_differ b in
    let two : put_name i (ns ++ (s ∷ [])) ≡ (ns ++ (s ∷ [])) ++ (i ∷ []) =
      put_name-new i (ns ++ (s ∷ [])) (has_name-append i ns (s ∷ []) ∙ ground arith) in
    let again : has_name i ((ns ++ (s ∷ [])) ++ (i ∷ [])) ≡ true =
      has_name-append i (ns ++ (s ∷ [])) (i ∷ []) ∙ ground (arith, name_eq_refl i) in
    ap (λ t. put_name i (put_name i t)) (put_name-new s ns no_store)
    ∙ ap (put_name i) two
    ∙ put_name-has i ((ns ++ (s ∷ [])) ++ (i ∷ [])) again
    ∙ append_assoc ns (s ∷ []) (i ∷ [])

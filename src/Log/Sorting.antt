-- ===== src/Log/Sorting.antt =====
-- What `setup` makes of the names that it reads: each segment's offset, once and in order.
use smolkafka.Prelude.{ℕ, ◌≡◌, refl, ◌∙◌, ap, List, [], ◌∷◌, map, arith, Bool-cases, inl, inr}
use smolkafka.Disk.{Name}
use smolkafka.Disk.Listing.{names_of, AllAbove, Increasing}
use smolkafka.Names.{parse_base, parse-names}
use smolkafka.Log.{every_other, insert_sorted, sort, name_le, insert_name, sort_names}

-- The order in which two numbers are inserted does not matter.
insert_sorted_comm :
    (x y : ℕ) (l : List ℕ)
    → insert_sorted x (insert_sorted y l) ≡ insert_sorted y (insert_sorted x l)
unfolding insert_sorted
insert_sorted_comm x y [] = ground arith
insert_sorted_comm x y (z ∷ l) = ground (arith, insert_sorted_comm x y l)

sort-insert_name :
    (f : Name → ℕ) (n : Name) (ns : List Name)
    → sort (map f (insert_name n ns)) ≡ insert_sorted (f n) (sort (map f ns))
unfolding sort insert_name
sort-insert_name f n [] = refl
sort-insert_name f n (m ∷ ms) = elim (Bool-cases (name_le n m)) [
  | inl le ↦ rw le refl
  | inr gt ↦ rw gt (
      ap (insert_sorted (f m)) (sort-insert_name f n ms)
      ∙ insert_sorted_comm (f m) (f n) (sort (map f ms)))
]

-- The order of the names does not matter either.
pub sort-sort_names :
    (f : Name → ℕ) (ns : List Name) → sort (map f (sort_names ns)) ≡ sort (map f ns)
unfolding sort sort_names
sort-sort_names f [] = refl
sort-sort_names f (n ∷ ns) =
    sort-insert_name f n (sort_names ns) ∙ ap (insert_sorted (f n)) (sort-sort_names f ns)

-- Each offset twice.
abbrev doubled : List ℕ → List ℕ
doubled [] = []
doubled (b ∷ bs) = b ∷ b ∷ doubled bs

parse-names_of : (bs : List ℕ) → Increasing bs → map parse_base (names_of bs) ≡ doubled bs
parse-names_of [] h = refl
parse-names_of (b ∷ bs) (small, above, h) =
    let (s, i) = parse-names b (omega arith) in ground (arith, s, i, parse-names_of bs h)

insert_sorted-least :
    (b : ℕ) (bs : List ℕ) → AllAbove b bs → insert_sorted b (doubled bs) ≡ b ∷ doubled bs
unfolding insert_sorted
insert_sorted-least b [] h = refl
insert_sorted-least b (c ∷ bs) (lt, small, h) = ground arith

insert_sorted-same : (b : ℕ) (l : List ℕ) → insert_sorted b (b ∷ l) ≡ b ∷ b ∷ l
unfolding insert_sorted
insert_sorted-same b l = ground arith

sort-doubled : (bs : List ℕ) → Increasing bs → sort (doubled bs) ≡ doubled bs
unfolding sort
sort-doubled [] h = refl
sort-doubled (b ∷ bs) (small, above, h) =
    ap (λ l. insert_sorted b (insert_sorted b l)) (sort-doubled bs h)
    ∙ ap (insert_sorted b) (insert_sorted-least b bs above)
    ∙ insert_sorted-same b (doubled bs)

every_other-doubled : (bs : List ℕ) → every_other (doubled bs) ≡ bs
unfolding every_other
every_other-doubled [] = refl
every_other-doubled (b ∷ bs) = ap (λ t. b ∷ t) (every_other-doubled bs)

-- From the names of the files of segments in order, whatever the order in which they are read, `setup`
-- gets the offset of each segment once, in order.
pub every_other-sort :
    (bs : List ℕ)
    → Increasing bs
    → every_other (sort (map parse_base (sort_names (names_of bs)))) ≡ bs
every_other-sort bs h =
    ap every_other
      (sort-sort_names parse_base (names_of bs) ∙ ap sort (parse-names_of bs h) ∙ sort-doubled bs h)
    ∙ every_other-doubled bs

-- ===== src/Names.antt =====
-- The names of a segment's files: `fmt.Sprintf("%d%s", baseOffset, ext)` of internal/log/segment.go,
-- and how `setup` of internal/log/log.go reads the offset back, by `path.Ext`, `strings.TrimSuffix`
-- and `strconv.ParseUint`. Text is its list of character codes.
use smolkafka.Prelude.{
  ℕ, zero, suc, ◌+◌, ◌-◌, ◌*◌, ◌/◌, ◌%◌, ◌^◌, ◌<◌, ◌≡◌, ◌≢◌, refl, ◌∙◌, ap, sym, false, Bool-cases,
  inl, inr, ◌&&◌, Option, none, some, [], ◌∷◌, ◌++◌, append-nil, arith, ltb, leb, ◌==◌,
  if◌then◌else◌,
}
use smolkafka.Disk.{Name, name_eq, eq_of_name_eq}

-- The digits of `n` before those in `acc`, with `f` for the number of rounds left.
digits : ℕ → ℕ → Name → Name
digits zero n acc = acc
digits (suc f) n acc =
    let rest = digits f (n / 10) ((48 + n % 10) ∷ acc) in if ltb n 10 then (48 + n) ∷ acc else rest

-- `%d`. A number has no more digits than its size.
pub decimal : ℕ → Name
decimal n = digits (suc n) n []

-- ".store" and ".index"
abbrev dot_store : Name
dot_store = b'.' ∷ b's' ∷ b't' ∷ b'o' ∷ b'r' ∷ b'e' ∷ []

abbrev dot_index : Name
dot_index = b'.' ∷ b'i' ∷ b'n' ∷ b'd' ∷ b'e' ∷ b'x' ∷ []

unfoldable pub store_name : ℕ → Name
unfolding decimal digits
store_name base = decimal base ++ dot_store

unfoldable pub index_name : ℕ → Name
unfolding decimal digits
index_name base = decimal base ++ dot_index

-- What stands before the last dot, if there is one.
before_dot : Name → Option Name
before_dot [] = none
before_dot (c ∷ cs) = elim (before_dot cs) [
  | some stem ↦ some (c ∷ stem)
  | none ↦ if c == b'.' then some [] else none
]

-- `strings.TrimSuffix(name, path.Ext(name))`
trim_ext : Name → Name
trim_ext n = elim (before_dot n) [ some stem ↦ stem | none ↦ n ]

-- The loop of `strconv.ParseUint` with base 10: 0 on a syntax error, and the largest value on an
-- overflow. The code drops the error.
parse_from : ℕ → Name → ℕ
parse_from n [] = n
parse_from n (c ∷ cs) =
    let rest = parse_from (n * 10 + (c - 48)) cs in
    if leb 48 c && leb c 57
    then (if leb (2 ^ 64) (n * 10 + (c - 48)) then 2 ^ 64 - 1 else rest)
    else 0

unfoldable pub parse_base : Name → ℕ
unfolding trim_ext before_dot parse_from
parse_base n = parse_from 0 (trim_ext n)

before_dot-append :
    (xs ys zs : Name) → before_dot ys ≡ some zs → before_dot (xs ++ ys) ≡ some (xs ++ zs)
unfolding before_dot
before_dot-append [] ys zs h = h
before_dot-append (x ∷ xs) ys zs h = rw (before_dot-append xs ys zs h)

trim_ext-dot : (xs ys : Name) → before_dot ys ≡ some [] → trim_ext (xs ++ ys) ≡ xs
unfolding trim_ext
trim_ext-dot xs ys h = rw (before_dot-append xs ys [] h, trim_ext) (append-nil xs)

parse_digit :
    (n d : ℕ) (cs : Name)
    → d < 10
    → n * 10 + d < 2 ^ 64
    → parse_from n ((48 + d) ∷ cs) ≡ parse_from (n * 10 + d) cs
unfolding parse_from
parse_digit n d cs h small = let e : 48 + d - 48 ≡ d = omega arith in rw e (ground arith)

parse-digits :
    (f n : ℕ) (acc : Name) → n < f → n < 2 ^ 64 → parse_from 0 (digits f n acc) ≡ parse_from n acc
unfolding digits
parse-digits zero n acc h small = elim h [ ]
parse-digits (suc f) n acc h small = elim (Bool-cases (ltb n 10)) [
  | inl last ↦
      rw last (
        parse_digit 0 n acc (ground arith) (omega arith) ∙ ap (λ k. parse_from k acc) (omega arith))
  | inr more ↦ rw more (
      parse-digits f (n / 10) ((48 + n % 10) ∷ acc) (ground arith) (omega arith)
      ∙ parse_digit (n / 10) (n % 10) acc (omega arith) (omega arith)
      ∙ ap (λ k. parse_from k acc) (omega arith))
]

parse-decimal :
    (n : ℕ) (ext : Name) → before_dot ext ≡ some [] → n < 2 ^ 64 → parse_base (decimal n ++ ext) ≡ n
unfolding parse_base decimal
parse-decimal n ext h small =
    ap (parse_from 0) (trim_ext-dot (decimal n) ext h)
    ∙ parse-digits (suc n) n [] (omega arith) small

-- `setup` reads back a base offset below 2 ^ 64 from the name of either file of its segment.
pub parse-names :
    (n : ℕ) → n < 2 ^ 64 → (parse_base (store_name n) ≡ n) × (parse_base (index_name n) ≡ n)
unfolding store_name index_name before_dot
parse-names n small = (parse-decimal n dot_store refl small, parse-decimal n dot_index refl small)

name_eq-append : (xs ys zs : Name) → name_eq (xs ++ ys) (xs ++ zs) ≡ name_eq ys zs
name_eq-append [] ys zs = refl
name_eq-append (x ∷ xs) ys zs = ground (arith, name_eq-append xs ys zs)

-- The two files of a segment have two names.
pub names_differ :
    (n : ℕ)
    → (name_eq (store_name n) (index_name n) ≡ false)
      × (name_eq (index_name n) (store_name n) ≡ false)
unfolding store_name index_name
names_differ n =
    (name_eq-append (decimal n) dot_store dot_index, name_eq-append (decimal n) dot_index dot_store)

differ_of_base : (x y : Name) → parse_base x ≢ parse_base y → name_eq x y ≡ false
differ_of_base x y h = elim (Bool-cases (name_eq x y)) [
  | inl e ↦ absurd (h (ap parse_base (eq_of_name_eq x y e)))
  | inr e ↦ e
]

-- No two segments share a file.
pub segments_differ :
    (m n : ℕ)
    → m ≢ n
    → m < 2 ^ 64
    → n < 2 ^ 64
    → (name_eq (store_name m) (store_name n) ≡ false)
      × (name_eq (index_name m) (index_name n) ≡ false)
      × (name_eq (store_name m) (index_name n) ≡ false)
      × (name_eq (index_name m) (store_name n) ≡ false)
segments_differ m n h hm hn =
    let (sm, im) = parse-names m hm in
    let (sn, in') = parse-names n hn in
    (
      differ_of_base (store_name m) (store_name n) (λ e. h (sym sm ∙ e ∙ sn)),
      differ_of_base (index_name m) (index_name n) (λ e. h (sym im ∙ e ∙ in')),
      differ_of_base (store_name m) (index_name n) (λ e. h (sym sm ∙ e ∙ in')),
      differ_of_base (index_name m) (store_name n) (λ e. h (sym im ∙ e ∙ sn)),
    )

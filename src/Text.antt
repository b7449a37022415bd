-- ===== src/Text.antt =====
-- What the code uses of Go's strings, by their character codes.
use smolkafka.Prelude.{ℕ, suc, ◌++◌, Bool, true, false, ◌&&◌, ◌||◌, [], ◌∷◌, ◌==◌}
use smolkafka.Disk.{Name}
use smolkafka.Names.{decimal}

-- `strings.HasPrefix`, the prefix first.
abbrev pub is_prefix : Name → Name → Bool
is_prefix [] t = true
is_prefix (p ∷ ps) [] = false
is_prefix (p ∷ ps) (c ∷ t) = (p == c) && is_prefix ps t

-- `strings.Contains`, what is looked for first.
abbrev pub contains : Name → Name → Bool
contains p [] = is_prefix p []
contains p (c ∷ t) = is_prefix p (c ∷ t) || contains p t

-- Go's `int`.
pub data ℤ : Type 0 where
  pos : ℕ → ℤ
  negsuc : ℕ → ℤ

-- `fmt.Sprintf("%d", n)`
pub print_int : ℤ → Name
print_int (pos n) = decimal n
print_int (negsuc n) = b'-' ∷ decimal (suc n)

-- `fmt.Sprintf("%s:%d", host, port)`
unfoldable pub host_port : Name → ℤ → Name
host_port host port = host ++ (b':' ∷ print_int port)

-- ===== src/Picker.antt =====
-- internal/loadbalance/picker.go: which connection serves a call. `Build` and `Pick` hold the
-- picker's lock, so each is one step.
pub mod RoundRobin
pub mod Orders
pub mod Fairness
use smolkafka.Prelude.{
  ℕ, ◌+◌, ◌%◌, ◌^◌, Bool, true, false, ◌||◌, Option, none, some, List, [], ◌∷◌, ◌++◌, ◌==◌,
  if◌then◌else◌, length, get_elem?,
}
use smolkafka.Exec.{Result, ok, err, no_sub_conn, panic, Exec, modify, ◌>>=◌}
use smolkafka.Disk.{Name}
use smolkafka.Text.{contains}

-- `Picker`; a `balancer.SubConn` is a number.
pub record Picker : Type 0 where
  pub leader : Option ℕ
  pub followers : List ℕ
  pub current : ℕ

-- An item of `buildInfo.ReadySCs`, with the attribute "is_leader" that it may lack.
pub record SubConnInfo : Type 0 where
  pub sub_conn : ℕ
  pub is_leader : Option Bool

-- The loop of `Build`, in the order in which the map's items come, with the followers found so far.
-- The type assertion on an attribute that is not there panics.
pub build_loop : List SubConnInfo → List ℕ → Exec Picker (List ℕ)
build_loop [] fs p = (ok fs, p)
build_loop (i ∷ is) fs p = elim i.is_leader [
  | none ↦ (err panic, p)
  | some true ↦ build_loop is fs (record p { leader = some i.sub_conn })
  | some false ↦ build_loop is (fs ++ (i.sub_conn ∷ [])) p
]

-- `Build`
pub build : List SubConnInfo → Exec Picker Unit
build is = do fs ← build_loop is []; modify (λ p. record p { followers = fs })

abbrev pub produce : Name
produce = b'P' ∷ b'r' ∷ b'o' ∷ b'd' ∷ b'u' ∷ b'c' ∷ b'e' ∷ []

abbrev pub consume : Name
consume = b'C' ∷ b'o' ∷ b'n' ∷ b's' ∷ b'u' ∷ b'm' ∷ b'e' ∷ []

-- What `Pick` makes of `result.SubConn`.
unfoldable pub picked : Option ℕ → Result ℕ
picked none = err no_sub_conn
picked (some sc) = ok sc

or_panic : Option ℕ → Result ℕ
or_panic none = err panic
or_panic (some sc) = ok sc

-- `nextFollower`, with the index modulo the number of followers, which must not be 0.
pub next_follower : Exec Picker ℕ
next_follower p =
    let cur = (p.current + 1) % 2 ^ 64 in
    (
      if length p.followers == 0
          then err panic
          else or_panic (get_elem? p.followers (cur % length p.followers)),
      record p { current = cur },
    )

-- `Pick` for a call of the method.
pub pick : Name → Exec Picker ℕ
pick method p =
    if contains produce method || (length p.followers == 0)
    then (picked p.leader, p)
    else if contains consume method
    then next_follower p
    else (err no_sub_conn, p)

-- ===== src/Picker/RoundRobin.antt =====
-- Where the picker sends a call: what `Build` finds, the leader for what is produced, and the
-- followers in turn for what is consumed.
use native.Mathlib.Nat.{mod-lt}
use smolkafka.Prelude.{
  ℕ, zero, suc, ◌+◌, ◌%◌, ◌^◌, ◌<◌, ◌≡◌, refl, ap, ◌∙◌, sym, Bool, true, false, Option, some, List,
  [], ◌∷◌, ◌++◌, append-nil, append_assoc, arith, ◌==◌, length, get_elem?, get_elem?-lt,
  get_elem?-some,
}
use smolkafka.Exec.{Result, ok, err, no_sub_conn}
use smolkafka.Disk.{Name}
use smolkafka.Text.{contains}
use smolkafka.Picker.{
  Picker, SubConnInfo, build_loop, build, produce, consume, picked, next_follower, or_panic, pick,
}

-- A connection with its role.
abbrev pub info_of : ℕ × Bool → SubConnInfo
info_of (sc, is_leader) = record { sub_conn = sc; is_leader = some is_leader }

abbrev pub infos : List (ℕ × Bool) → List SubConnInfo
infos [] = []
infos (c ∷ cs) = info_of c ∷ infos cs

-- The followers in order, and the last leader, if there is one.
abbrev pub followers_of : List (ℕ × Bool) → List ℕ
followers_of [] = []
followers_of ((sc, true) ∷ cs) = followers_of cs
followers_of ((sc, false) ∷ cs) = sc ∷ followers_of cs

abbrev pub leader_of : Option ℕ → List (ℕ × Bool) → Option ℕ
leader_of old [] = old
leader_of old ((sc, true) ∷ cs) = leader_of (some sc) cs
leader_of old ((sc, false) ∷ cs) = leader_of old cs

build_loop_lem :
    (cs : List (ℕ × Bool)) (fs : List ℕ) (p : Picker)
    → build_loop (infos cs) fs p
      ≡ (ok (fs ++ followers_of cs), record p { leader = leader_of p.leader cs })
unfolding build_loop
build_loop_lem [] fs p = ap (λ t. (ok t, p)) (sym (append-nil fs))
build_loop_lem ((sc, true) ∷ cs) fs p = build_loop_lem cs fs (record p { leader = some sc })
build_loop_lem ((sc, false) ∷ cs) fs p =
    build_loop_lem cs (fs ++ (sc ∷ [])) p
    ∙ ap (λ t. (ok t, record p { leader = leader_of p.leader cs }))
        (append_assoc fs (sc ∷ []) (followers_of cs))

-- `Build` of connections that all have their role keeps the followers in their order and the last
-- leader; where none of them leads, the leader of an earlier build stays. The turn goes on.
pub build_lem :
    (cs : List (ℕ × Bool)) (p : Picker)
    → build (infos cs) p ≡ (
      ok tt,
      record { leader = leader_of p.leader cs; followers = followers_of cs; current = p.current },
    )
unfolding build
build_lem cs p = rw (build_loop_lem cs [] p) refl

-- A call that produces goes to the leader, and leaves the picker as it is.
pub pick-produce :
    (method : Name) (p : Picker)
    → contains produce method ≡ true
    → pick method p ≡ (picked p.leader, p)
unfolding pick
pick-produce method p h = rw h refl

-- The connections picked by a number of calls of one method.
pub pick_each : ℕ → Name → Picker → List (Result ℕ)
pick_each zero method p = []
pick_each (suc k) method p = let (r, p') = pick method p in r ∷ pick_each k method p'

pick-consume :
    (method : Name) (p : Picker) (f : ℕ)
    → contains produce method ≡ false
    → contains consume method ≡ true
    → p.current + 1 < 2 ^ 64
    → get_elem? p.followers ((p.current + 1) % length p.followers) ≡ some f
    → pick method p ≡ (ok f, record p { current = p.current + 1 })
unfolding pick next_follower or_panic
pick-consume method p f no_produce is_consume small at =
    let some_follower : (length p.followers == 0) ≡ false =
      ground (arith, get_elem?-lt p.followers ((p.current + 1) % length p.followers) at) in
    let no_wrap : (p.current + 1) % 2 ^ 64 ≡ p.current + 1 = omega arith in
    rw (no_produce, is_consume, some_follower, no_wrap, at) refl

-- Calls that consume go to the followers in turn: where there are followers and the counter does
-- not wrap, the call number `i` of a row goes to the follower `i` places after the one after the
-- last that was picked, round the end.
pub pick_each-consume :
    (k i : ℕ) (method : Name) (p : Picker) (f : ℕ)
    → contains produce method ≡ false
    → contains consume method ≡ true
    → 0 < length p.followers
    → p.current + k < 2 ^ 64
    → i < k
    → get_elem? p.followers ((p.current + 1 + i) % length p.followers) ≡ some f
    → get_elem? (pick_each k method p) i ≡ some (ok f)
unfolding pick_each
pick_each-consume zero i method p f no_produce is_consume some_follower small before at =
    absurd (omega arith)
pick_each-consume (suc k) zero method p f no_produce is_consume some_follower small before at =
    ap (λ (x : Result ℕ × Picker). get_elem? (x.0 ∷ pick_each k method x.1) 0)
      (pick-consume method p f no_produce is_consume (omega arith)
        (ap (λ n. get_elem? p.followers (n % length p.followers)) here ∙ at))
  where
    here : p.current + 1 ≡ p.current + 1 + 0
    here = omega arith
pick_each-consume (suc k) (suc i) method p f no_produce is_consume some_follower small before at =
    let (g, next) =
      get_elem?-some p.followers ((p.current + 1) % length p.followers)
        (mod-lt (p.current + 1) some_follower) in
    let p' : Picker = record p { current = p.current + 1 } in
    let same : p.current + 1 + suc i ≡ p.current + 1 + 1 + i = omega arith in
    ap (λ (x : Result ℕ × Picker). get_elem? (pick_each k method x.1) i)
      (pick-consume method p g no_produce is_consume (omega arith) next)
    ∙ pick_each-consume k i method p' f no_produce is_consume some_follower (omega arith)
        (omega arith) (ap (λ n. get_elem? p.followers (n % length p.followers)) (sym same) ∙ at)

-- A call of another method is refused while there are followers, though there may be a leader.
pub pick-other :
    (method : Name) (p : Picker)
    → contains produce method ≡ false
    → contains consume method ≡ false
    → 0 < length p.followers
    → pick method p ≡ (err no_sub_conn, p)
unfolding pick
pick-other method p no_produce no_consume some_follower =
    let some_left : (length p.followers == 0) ≡ false = ground arith in
    rw (no_produce, no_consume, some_left) refl

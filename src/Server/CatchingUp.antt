-- ===== src/Server/CatchingUp.antt =====
-- A stream that is behind the log is sent a record in each turn.
use smolkafka.Prelude.{
  ℕ, zero, suc, ◌+◌, ◌%◌, ◌^◌, ◌<◌, ◌≤◌, ◌≡◌, refl, ap, ◌∙◌, sym, Bool, true, none, List, [], ◌∷◌,
  ◌++◌, arith, length, length-append, take, drop, get_elem?-some, get_elem?-append_left,
  take-append_left,
}
use smolkafka.Exec.{ok, err}
use smolkafka.Disk.{Name}
use smolkafka.Platform.{Record}
use smolkafka.Server.{
  CommitLog, object_wildcard, produce_action, Turn, done, serve, Outcome, consume_stream,
}
use smolkafka.Server.Access.{permitted_lem}
use smolkafka.Server.Following.{Shows, OnlyAppend, drop-get_elem?, turn-sent}

-- No turn ends the stream, and each response can be sent.
abbrev pub AllServed : {S : Type 0} → List (Turn S) → Type 0
AllServed [] = Unit
AllServed (done ∷ ts) = ⊥
AllServed (serve others (ok u) ∷ ts) = AllServed ts
AllServed (serve others (err x) ∷ ts) = ⊥

take-drop_append :
    (n k : ℕ) (xs ys : List Record)
    → k + n ≤ length xs
    → take n (drop k (xs ++ ys)) ≡ take n (drop k xs)
take-drop_append n zero xs ys h = take-append_left n xs ys (omega arith)
take-drop_append n (suc k) [] ys h = absurd (omega arith)
take-drop_append n (suc k) (x ∷ xs) ys h = take-drop_append n k xs ys (omega arith)

module _ {S : Type 0} (log : CommitLog S) (enforce : Name → Name → Name → Bool) (subject : Name)
    (base : ℕ) (Has : ℕ → S → List Record → Type 0) where
  pub consume_stream-AllServed :
      (k : ℕ) (ts : List (Turn S)) (s : S) (rs : List Record)
      → Shows log base Has
      → enforce subject object_wildcard produce_action ≡ true
      → OnlyAppend Has ts
      → AllServed ts
      → k + length ts ≤ length rs
      → base + k + length ts < 2 ^ 64
      → Has (length ts) s rs
      → (consume_stream log enforce subject (base + k) ts s).0 ≡ take (length ts) (drop k rs)
  unfolding consume_stream
  consume_stream-AllServed k [] s rs shows allowed only all behind small h = refl
  consume_stream-AllServed k (done ∷ ts) s rs shows allowed only all behind small h = absurd all
  consume_stream-AllServed k (serve others (err x) ∷ ts) s rs shows allowed only all behind small
        h =
      absurd all
  consume_stream-AllServed k (serve others (ok u) ∷ ts) s rs shows allowed (appends, only) all
        behind small h =
      let (more, h') = appends s rs h in
      let (r, at) = get_elem?-some rs k (omega (arith, behind)) in
      let there = get_elem?-append_left rs more k (omega (arith, behind)) ∙ at in
      let served = (permitted_lem log enforce subject none (base + k) (others s) allowed).1 in
      let t = (log.read (base + k) (others s)).1 in
      let (q, got, (is, left)) = shows.found (length ts) (others s) (rs ++ more) k r h' there in
      let next : (base + k + 1) % 2 ^ 64 ≡ base + (k + 1) = omega arith in
      let again : k + 1 ≡ suc k = omega arith in
      let rest =
        consume_stream-AllServed (k + 1) ts t (rs ++ more) shows allowed only all
          (omega (arith, behind, length-append rs more)) (omega arith) left in
      ap (λ (x : List Record × (Outcome × S)). x.0)
        (turn-sent log enforce subject base Has (base + k) others u ts s t r
          (served ∙ ap (λ x. (x, t)) (got ∙ ap ok is)))
      ∙ ap (λ n. r ∷ (consume_stream log enforce subject n ts t).0) next
      ∙ ap (λ xs. r ∷ xs)
          (rest
            ∙ take-drop_append (length ts) (k + 1) rs more (omega (arith, behind))
            ∙ ap (λ n. take (length ts) (drop n rs)) again)
      ∙ ap (λ xs. take (suc (length ts)) xs) (sym (drop-get_elem? rs k r at))

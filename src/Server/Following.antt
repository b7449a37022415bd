-- ===== src/Server/Following.antt =====
-- What `ConsumeStream` sends while others append to the log.
use mathlib.Core.Path.{subst}
use smolkafka.Prelude.{
  ℕ, zero, suc, ◌+◌, ◌%◌, ◌^◌, ◌<◌, ◌≤◌, ◌≡◌, refl, ap, ◌∙◌, sym, Bool, true, none, some, List, [],
  ◌∷◌, ◌++◌, append-nil, append_assoc, arith, length, take, drop, get_elem?, get_elem?-some,
  get_elem?-append_left, dec_lt, if◌then◌else◌,
}
use smolkafka.Exec.{Error, Result, ok, err, offset_out_of_range}
use smolkafka.Exec.Returns.{Returns}
use smolkafka.Disk.{Name}
use smolkafka.Platform.{Record}
use smolkafka.Server.{
  CommitLog, object_wildcard, produce_action, Turn, done, serve, Outcome, returned, consume,
  is_out_of_range, consume_stream,
}
use smolkafka.Server.Access.{permitted_lem}

-- The state of a log has these records, from the base offset on: each is read at its offset, and no
-- offset behind them is. The number is that of the turns for which others may still append.
pub record Shows {S : Type 0} (log : CommitLog S) (base : ℕ) (Has : ℕ → S → List Record → Type 0)
    : Type 0 where
  pub found :
      (n : ℕ) (s : S) (rs : List Record) (k : ℕ) (r : Record)
      → Has n s rs
      → get_elem? rs k ≡ some r
      → Returns (log.read (base + k) s) (λ q t. (q ≡ r) × Has n t rs)
  pub missing :
      (n : ℕ) (s : S) (rs : List Record) (k : ℕ)
      → Has n s rs
      → length rs ≤ k
      → ((log.read (base + k) s).0 ≡ err (offset_out_of_range (base + k)))
        × Has n (log.read (base + k) s).1 rs

-- Whatever others do before a turn, they append records at most.
abbrev pub OnlyAppend : {S : Type 0} → (ℕ → S → List Record → Type 0) → List (Turn S) → Type 0
OnlyAppend Has [] = Unit
OnlyAppend Has (done ∷ ts) = OnlyAppend Has ts
OnlyAppend {S} Has (serve others sent ∷ ts) =
    ((s : S) (rs : List Record)
      → Has (suc (length ts)) s rs
      → (more : List Record) × Has (length ts) (others s) (rs ++ more))
    × OnlyAppend Has ts

pub drop-get_elem? :
    (xs : List Record) (k : ℕ) (r : Record)
    → get_elem? xs k ≡ some r
    → drop k xs ≡ r ∷ drop (suc k) xs
drop-get_elem? [] k r at = cc
drop-get_elem? (x ∷ xs) zero r at = cc
drop-get_elem? (x ∷ xs) (suc k) r at = drop-get_elem? xs k r at

module _ {S : Type 0} (log : CommitLog S) (enforce : Name → Name → Name → Bool) (subject : Name)
    (base : ℕ) (Has : ℕ → S → List Record → Type 0) where
  -- What was sent is the part of the records from the place on, and the log has these at the end.
  pub record Followed (k : ℕ) (rs sent : List Record) (t : S) : Type 0 where
    pub more : List Record
    pub turns : ℕ
    pub has : Has turns t (rs ++ more)
    pub sent_lem : sent ≡ take (length sent) (drop k (rs ++ more))

  none_sent : (k n : ℕ) (rs : List Record) (t : S) → Has n t rs → Followed k rs [] t
  none_sent k n rs t h = record {
    more = [];
    turns = n;
    has = subst (Has n t) (sym (append-nil rs)) h;
    sent_lem = refl;
  }

  -- The records that others have appended before.
  after_more :
      (k : ℕ) (rs more sent : List Record) (t : S)
      → Followed k (rs ++ more) sent t
      → Followed k rs sent t
  after_more k rs more sent t f =
      let e = append_assoc rs more f.more in
      record {
        more = more ++ f.more;
        turns = f.turns;
        has = subst (Has f.turns t) e f.has;
        sent_lem = f.sent_lem ∙ ap (λ xs. take (length sent) (drop k xs)) e;
      }

  one_sent :
      (k : ℕ) (rs sent : List Record) (r : Record) (t : S)
      → get_elem? rs k ≡ some r
      → k < length rs
      → Followed (k + 1) rs sent t
      → Followed k rs (r ∷ sent) t
  one_sent k rs sent r t at lt f =
      let next : k + 1 ≡ suc k = omega arith in
      let here = drop-get_elem? (rs ++ f.more) k r (get_elem?-append_left rs f.more k lt ∙ at) in
      record {
        more = f.more;
        turns = f.turns;
        has = f.has;
        sent_lem =
            ap (λ xs. r ∷ xs)
              (f.sent_lem ∙ ap (λ n. take (length sent) (drop n (rs ++ f.more))) next)
            ∙ ap (λ xs. take (suc (length sent)) xs) (sym here);
      }

  -- A turn in which the record is there and is sent, one in which it cannot be sent, and one in which
  -- it is not there yet.
  abbrev pub stream : ℕ → List (Turn S) → S → List Record × (Outcome × S)
  stream = consume_stream log enforce subject

  -- What a turn comes to, by what was read.
  abbrev turn :
      ℕ → Result (Unit {0}) → List (Turn S) → Result Record × S → List Record × (Outcome × S)
  turn off sent ts x = elim x.0 [
    | ok r ↦ elim sent [
      | ok _ ↦ (r ∷ (stream ((off + 1) % 2 ^ 64) ts x.1).0, (stream ((off + 1) % 2 ^ 64) ts x.1).1)
      | err e ↦ ([], (returned (err e), x.1))
    ]
    | err e ↦ if is_out_of_range e then stream off ts x.1 else ([], (returned (err e), x.1))
  ]

  pub turn-sent :
      (off : ℕ) (others : S → S) (u : Unit {0}) (ts : List (Turn S)) (s t : S) (r : Record)
      → consume log enforce subject off (others s) ≡ (ok r, t)
      → stream off (serve others (ok u) ∷ ts) s
        ≡ (r ∷ (stream ((off + 1) % 2 ^ 64) ts t).0, (stream ((off + 1) % 2 ^ 64) ts t).1)
  unfolding consume_stream
  turn-sent off others u ts s t r e = ap (turn off (ok u) ts) e

  turn-unsent :
      (off : ℕ) (others : S → S) (x : Error) (ts : List (Turn S)) (s t : S) (r : Record)
      → consume log enforce subject off (others s) ≡ (ok r, t)
      → stream off (serve others (err x) ∷ ts) s ≡ ([], (returned (err x), t))
  unfolding consume_stream
  turn-unsent off others x ts s t r e = ap (turn off (err x) ts) e

  turn-missing :
      (off n : ℕ) (others : S → S) (sent : Result (Unit {0})) (ts : List (Turn S)) (s t : S)
      → consume log enforce subject off (others s) ≡ (err (offset_out_of_range n), t)
      → stream off (serve others sent ∷ ts) s ≡ stream off ts t
  unfolding consume_stream is_out_of_range
  turn-missing off n others sent ts s t e = ap (turn off sent ts) e

  abbrev pub AsFollowed : ℕ → List Record → List Record × (Outcome × S) → Type 0
  AsFollowed k rs (sent, (o, t)) = Followed k rs sent t

  pub consume_stream-Followed :
      (k : ℕ) (ts : List (Turn S)) (s : S) (rs : List Record)
      → Shows log base Has
      → enforce subject object_wildcard produce_action ≡ true
      → OnlyAppend Has ts
      → base + k + length ts < 2 ^ 64
      → Has (length ts) s rs
      → AsFollowed k rs (stream (base + k) ts s)
  unfolding consume_stream
  consume_stream-Followed k [] s rs shows allowed only small h = none_sent k _ rs s h
  consume_stream-Followed k (done ∷ ts) s rs shows allowed only small h = none_sent k _ rs s h
  consume_stream-Followed k (serve others (ok u) ∷ ts) s rs shows allowed (appends, only) small h =
      let (more, h') = appends s rs h in
      let now = rs ++ more in
      let served = (permitted_lem log enforce subject none (base + k) (others s) allowed).1 in
      let t = (log.read (base + k) (others s)).1 in
      elim (dec_lt k (length now)) [
        | no past ↦
            let (gone, left) = shows.missing (length ts) (others s) now k h' (omega arith) in
            subst (AsFollowed k rs)
              (sym (
                turn-missing (base + k) (base + k) others (ok u) ts s t
                  (served ∙ ap (λ x. (x, t)) gone)))
              (after_more k rs more _ _
                (consume_stream-Followed k ts t now shows allowed only (omega arith) left))
        | yes inside ↦
            let (r, at) = get_elem?-some now k inside in
            let (q, got, (is, left)) = shows.found (length ts) (others s) now k r h' at in
            let read = served ∙ ap (λ x. (x, t)) (got ∙ ap ok is) in
            let next : (base + k + 1) % 2 ^ 64 ≡ base + (k + 1) = omega arith in
            subst (AsFollowed k rs)
              (sym (
                turn-sent (base + k) others u ts s t r read
                ∙ ap (λ n. (r ∷ (stream n ts t).0, (stream n ts t).1)) next))
              (after_more k rs more _ _ (
                one_sent k now _ r _ at inside
                  (consume_stream-Followed (k + 1) ts t now shows allowed only (omega arith) left)))
      ]
  consume_stream-Followed k (serve others (err x) ∷ ts) s rs shows allowed (appends, only) small h =
      let (more, h') = appends s rs h in
      let now = rs ++ more in
      let served = (permitted_lem log enforce subject none (base + k) (others s) allowed).1 in
      let t = (log.read (base + k) (others s)).1 in
      elim (dec_lt k (length now)) [
        | no past ↦
            let (gone, left) = shows.missing (length ts) (others s) now k h' (omega arith) in
            subst (AsFollowed k rs)
              (sym (
                turn-missing (base + k) (base + k) others (err x) ts s t
                  (served ∙ ap (λ x. (x, t)) gone)))
              (after_more k rs more _ _
                (consume_stream-Followed k ts t now shows allowed only (omega arith) left))
        | yes inside ↦
            let (r, at) = get_elem?-some now k inside in
            let (q, got, (is, left)) = shows.found (length ts) (others s) now k r h' at in
            let read = served ∙ ap (λ x. (x, t)) (got ∙ ap ok is) in
            subst (AsFollowed k rs) (sym (turn-unsent (base + k) others x ts s t r read))
              (after_more k rs more [] t (none_sent k _ now t left))
      ]

-- ===== src/Server/Calls/Chains.antt =====
-- Who gets through the chains of interceptors.
use smolkafka.Prelude.{◌≡◌, refl, ap, ◌∙◌, ◌⊎◌, inl, inr, true, false, Option, none, some, ℕ, Bool}
use smolkafka.Exec.{Error, Result, ok, err, permission_denied, Exec, Result-cases}
use smolkafka.Disk.{Name}
use smolkafka.Platform.{Record}
use smolkafka.Server.{
  Peer, CommitLog, authenticate, object_wildcard, produce_action, produce, consume,
}
use smolkafka.Server.Access.{denied_lem, permitted_lem}
use smolkafka.Server.Calls.{
  Context, stream_chain, unary_chain, as_subject, subject_of, with_subject, Around, intercept,
  chained, produce_call, consume_call,
}

-- The libraries' interceptors call what is next, once, with the peer and the subject as they are.
pub record IsTransparent {S A : Type 0} (around : Around S A) : Type 0 where
  pub add_tags_lem :
      (next : Context → Exec S A) (ctx : Context) (s : S) → around.add_tags next ctx s ≡ next ctx s
  pub log_call_lem :
      (next : Context → Exec S A) (ctx : Context) (s : S) → around.log_call next ctx s ≡ next ctx s

-- A call of one who has authenticated as somebody.
abbrev pub served : {S A : Type 0} → (Name → Exec S A) → Result Name → Exec S A
served call (ok name) s = call name s
served call (err e) s = (err e, s)

module _ {S A : Type 0} where
  -- Both chains authenticate, and then serve the call for that subject.
  pub chained-served :
      (around : Around S A) (call : Name → Exec S A) (ctx : Context) (s : S)
      → IsTransparent around
      → (chained around unary_chain (as_subject call) ctx s ≡ served call (authenticate ctx.peer) s)
        × (chained around stream_chain (as_subject call) ctx s
            ≡ served call (authenticate ctx.peer) s)
  unfolding chained intercept with_subject as_subject subject_of
  chained-served around call ctx s t = elim (Result-cases (authenticate ctx.peer)) [
    | inl (name, e) ↦ (
      t.add_tags_lem _ ctx s ∙ t.log_call_lem _ ctx s ∙ rw e refl,
      t.add_tags_lem _ ctx s
          ∙ rw e (t.log_call_lem (as_subject call) (record ctx { subject = some name }) s),
    )
    | inr (x, e) ↦ (
      t.add_tags_lem _ ctx s ∙ t.log_call_lem _ ctx s ∙ rw e refl,
      t.add_tags_lem _ ctx s ∙ rw e refl,
    )
  ]

module _ {S : Type 0} (log : CommitLog S) (enforce : Name → Name → Name → Bool) where
  -- The peer has not authenticated, or as one who may not produce.
  abbrev pub IsShutOut : Peer → Type 0
  IsShutOut peer =
      ((x : Error) × (authenticate peer ≡ err x))
      ⊎ ((name : Name) × (authenticate peer ≡ ok name)
          × (enforce name object_wildcard produce_action ≡ false))

  -- Behind the interceptors of `NewGRPCServer`, of which the libraries' only call what is next, a
  -- call of `Produce` or `Consume` by a peer that has not authenticated, or that has as one who
  -- may not produce, ends in an error and leaves the log as it is.
  pub produce_call-IsShutOut :
      (around : Around S ℕ) (reading : Around S Record) (r : Option Record) (off : ℕ)
      (ctx : Context) (s : S)
      → IsTransparent around
      → IsTransparent reading
      → IsShutOut ctx.peer
      → ((x : Error) × (chained around unary_chain (produce_call log enforce r) ctx s ≡ (err x, s)))
        × ((x : Error) × (chained reading unary_chain (consume_call log enforce off) ctx s
              ≡ (err x, s)))
  unfolding produce_call consume_call
  produce_call-IsShutOut around reading r off ctx s t u (inl (x, e)) = (
    (
      x,
      (chained-served around _ ctx s t).0
          ∙ ap (λ n. served (λ name. produce log enforce name r) n s) e,
    ),
    (
      x,
      (chained-served reading _ ctx s u).0
          ∙ ap (λ n. served (λ name. consume log enforce name off) n s) e,
    ),
  )
  produce_call-IsShutOut around reading r off ctx s t u (inr (name, e, forbidden)) =
      let (no_produce, no_consume) = denied_lem log enforce name r off s forbidden in
      (
        (
          permission_denied,
          (chained-served around _ ctx s t).0
              ∙ ap (λ n. served (λ name. produce log enforce name r) n s) e
              ∙ no_produce,
        ),
        (
          permission_denied,
          (chained-served reading _ ctx s u).0
              ∙ ap (λ n. served (λ name. consume log enforce name off) n s) e
              ∙ no_consume,
        ),
      )

  -- A call by a peer that has authenticated as one who may produce is served by the log.
  pub produce_call-permitted :
      (around : Around S ℕ) (r : Option Record) (ctx : Context) (name : Name) (s : S)
      → IsTransparent around
      → authenticate ctx.peer ≡ ok name
      → enforce name object_wildcard produce_action ≡ true
      → (chained around unary_chain (produce_call log enforce r) ctx s ≡ log.append r s)
        × (chained around stream_chain (produce_call log enforce r) ctx s ≡ log.append r s)
  unfolding produce_call
  produce_call-permitted around r ctx name s clear who allowed =
      let (unary, stream) = chained-served around (λ n. produce log enforce n r) ctx s clear in
      let append =
        ap (λ x. served (λ n. produce log enforce n r) x s) who
        ∙ (permitted_lem log enforce name r 0 s allowed).0 in
      (unary ∙ append, stream ∙ append)

  pub consume_call-permitted :
      (around : Around S Record) (off : ℕ) (ctx : Context) (name : Name) (s : S)
      → IsTransparent around
      → authenticate ctx.peer ≡ ok name
      → enforce name object_wildcard produce_action ≡ true
      → chained around unary_chain (consume_call log enforce off) ctx s ≡ log.read off s
  unfolding consume_call
  consume_call-permitted around off ctx name s clear who allowed =
      (chained-served around (λ n. consume log enforce n off) ctx s clear).0
      ∙ ap (λ x. served (λ n. consume log enforce n off) x s) who
      ∙ (permitted_lem log enforce name none off s allowed).1

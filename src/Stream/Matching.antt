-- ===== src/Stream/Matching.antt =====
-- Raft's connections: what `Dial` opens is matched, and `Accept` takes what is matched.
use smolkafka.Prelude.{
  ℕ, ◌≡◌, refl, ap, ◌∙◌, arith, ◌⊎◌, inl, inr, true, false, Bool-cases, Option, [], ◌∷◌, ◌++◌, take,
}
use smolkafka.Exec.{Error, ok, err, not_raft_rpc, Result-cases}
use smolkafka.Bytes.{Bytes}
use smolkafka.Disk.{Name}
use smolkafka.Stream.{
  Net, raft_rpc, first_of, is_raft_rpc, matched, wrapped, matches, dial, checked, accept,
}

-- What a network does between two ends: `sent` are the bytes that have been written at a connection
-- that was dialled, and `arrives c c' s` says that in `s` the connection `c'` is the other end of `c`,
-- with nothing read of it yet.
pub record Delivery {S C T : Type 0} (net : Net S C T) (sent : C → S → Bytes)
    (Ends : C → C → S → Type 0) : Type 0 where
  pub dial_lem :
      (n : Name) (t : ℕ) (s : S) (c : C)
      → (net.dial n t s).0 ≡ ok c
      → sent c (net.dial n t s).1 ≡ []
  pub write_lem :
      (c : C) (b : Bytes) (s : S)
      → (net.write c b s).0 ≡ ok tt
      → sent c (net.write c b s).1 ≡ sent c s ++ b
  pub read_lem : (c c' : C) (s : S) → Ends c c' s → (net.read c' 1 s).0 ≡ ok (take 1 (sent c s))

module _ {S C T : Type 0} (net : Net S C T) where
  -- `Accept` and the multiplexer agree: of a connection that the listener accepts, either `Accept`
  -- takes it, with TLS if there are settings for it, and the matcher matches it, or `Accept` fails
  -- and the matcher does not match it.
  pub accept-matches :
      (tls : Option T) (s : S) (c : C)
      → (net.accept s).0 ≡ ok c
      → ((accept net tls s).0 ≡ ok (wrapped net.tls_server tls c))
          × (matches net c (net.accept s).1 ≡ true)
        ⊎ ((e : Error) × ((accept net tls s).0 ≡ err e)) × (matches net c (net.accept s).1 ≡ false)
  unfolding accept matches matched checked
  accept-matches tls s c e = elim (Result-cases (net.read c 1 (net.accept s).1).0) [
    | inr (x, r) ↦ inr ((x, rw (e, r) refl), rw r refl)
    | inl (p, r) ↦ elim (Bool-cases (is_raft_rpc (first_of p))) [
      | inl m ↦ inl (rw (e, r, m) refl, rw (r, m) refl)
      | inr m ↦ inr ((not_raft_rpc, rw (e, r, m) refl), rw (r, m) refl)
    ]
  ]

  -- A `Dial` that succeeds wrote its byte.
  dial_lem :
      (peer_tls : Option T) (n : Name) (timeout : ℕ) (s : S) (c d : C)
      → (net.dial n timeout s).0 ≡ ok c
      → (dial net peer_tls n timeout s).0 ≡ ok d
      → let w = net.write c (raft_rpc ∷ []) (net.dial n timeout s).1 in
        (w.0 ≡ ok tt)
        × (d ≡ wrapped net.tls_client peer_tls c)
        × ((dial net peer_tls n timeout s).1 ≡ w.1)
  unfolding dial
  dial_lem peer_tls n timeout s c d dialled whole =
      elim (Result-cases (net.write c (raft_rpc ∷ []) (net.dial n timeout s).1).0) [
        | inr (x, w) ↦ absurd (ground (arith, whole, dialled, w))
        | inl (u, w) ↦ (w, ground (arith, whole, dialled, w), rw (dialled, w) refl)
      ]

  -- A connection that `Dial` has opened, over a network that delivers what is written, is matched
  -- at the other end as Raft's, and `Accept` takes it; each end has TLS if it has settings for it.
  pub accept-dial :
      (sent : C → S → Bytes) (Ends : C → C → S → Type 0) (server_tls peer_tls : Option T) (n : Name)
      (timeout : ℕ) (s t : S) (c c' d : C)
      → Delivery net sent Ends
      → (net.dial n timeout s).0 ≡ ok c
      → (dial net peer_tls n timeout s).0 ≡ ok d
      → (net.accept t).0 ≡ ok c'
      → Ends c c' (net.accept t).1
      → sent c (net.accept t).1 ≡ sent c (dial net peer_tls n timeout s).1
      → (d ≡ wrapped net.tls_client peer_tls c)
        × (matches net c' (net.accept t).1 ≡ true)
        × ((accept net server_tls t).0 ≡ ok (wrapped net.tls_server server_tls c'))
  unfolding accept matches matched checked first_of is_raft_rpc
  accept-dial sent Ends server_tls peer_tls n timeout s t c c' d h dialled whole taken ends same =
      let (written, wraps, state) = dial_lem peer_tls n timeout s c d dialled whole in
      let first : sent c (net.accept t).1 ≡ raft_rpc ∷ [] =
        same
        ∙ ap (sent c) state
        ∙ h.write_lem c (raft_rpc ∷ []) (net.dial n timeout s).1 written
        ∙ ap (λ b. b ++ (raft_rpc ∷ [])) (h.dial_lem n timeout s c dialled) in
      let arrived : (net.read c' 1 (net.accept t).1).0 ≡ ok (raft_rpc ∷ []) =
        h.read_lem c c' (net.accept t).1 ends ∙ ap (λ b. ok (take 1 b)) first in
      (wraps, rw arrived refl, rw (taken, arrived) refl)

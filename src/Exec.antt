-- ===== src/Exec.antt =====
-- Errors of the Go code as values, and methods that change their receiver and may return an error.
-- What was changed before an error stays changed, so the state comes back beside the error too.
pub mod Returns
pub mod Kept
use smolkafka.Prelude.{ℕ, ◌≡◌, refl, ◌⊎◌, inl, inr, List}

-- `io.EOF`, `io.ErrUnexpectedEOF`, `os.ErrClosed`, `os.ErrNotExist`, a negative offset given to
-- `ReadAt`, `api.ErrOffsetOutOfRange`, `server.ErrOffsetNotFound`, `balancer.ErrNoSubConnAvailable`, `raft.ErrNotLeader`,
-- a status code with its subject left out, a file without a root certificate, a wait that timed out,
-- a connection that is not Raft's, an error of a third party's code, and a panic of the Go runtime
-- (an index out of range or a nil pointer), after which the caller does not go on.
pub data Error : Type 0 where
  eof unexpected_eof closed not_exist negative_offset : Error
  offset_out_of_range : ℕ → Error
  offset_not_found no_sub_conn permission_denied unknown_peer not_leader : Error
  bad_root_certificate : List ℕ → Error
  timed_out not_raft_rpc : Error
  foreign : ℕ → Error
  panic : Error

pub data Result {ℓ} (A : Type ℓ) : Type ℓ where
  ok : A → Result A
  err : Error → Result A

abbrev pub Exec {ℓ} : Type ℓ → Type ℓ → Type ℓ
Exec S A = S → Result A × S

module _ {ℓ} {S A : Type ℓ} where
  abbrev pub pure : A → Exec S A
  pure a s = (ok a, s)

  abbrev pub lift : Result A → Exec S A
  lift r s = (r, s)

  abbrev pub gets : (S → A) → Exec S A
  gets f s = (ok (f s), s)

abbrev pub modify : {S : Type 0} → (S → S) → Exec S Unit
modify f s = (ok tt, f s)

abbrev continue {ℓ} : {S A B : Type ℓ} → Result A → (A → Exec S B) → Exec S B
continue (ok a) f s = f a s
continue (err e) f s = (err e, s)

infixl 5 ◌>>=◌ ◌>>◌
abbrev pub ◌>>=◌ {ℓ} : {S A B : Type ℓ} → Exec S A → (A → Exec S B) → Exec S B
◌>>=◌ m f s = let (r, s') = m s in continue r f s'

abbrev pub ◌>>◌ : {S B : Type 0} → Exec S Unit → Exec S B → Exec S B
m >> k = m >>= λ _. k

-- A method of a field's object, run on the object that holds the field.
abbrev pub zoom : {S T A : Type 0} → (S → T) → (S → T → S) → Exec T A → Exec S A
zoom get put m s = let (r, t) = m (get s) in (r, put s t)

pub Result-cases {ℓ} :
    {A : Type ℓ} (r : Result A) → ((a : A) × (r ≡ ok a)) ⊎ ((e : Error) × (r ≡ err e))
Result-cases (ok a) = inl (a, refl)
Result-cases (err e) = inr (e, refl)

abbrev pub map_result {ℓ} : {A B : Type ℓ} → (A → B) → Result A → Result B
map_result f (ok a) = ok (f a)
map_result f (err e) = err e

-- A call whose result is not used; its error is.
abbrev pub discard : {S A : Type 0} → Exec S A → Exec S Unit
discard m s = let (r, s') = m s in (map_result (λ _. tt) r, s')

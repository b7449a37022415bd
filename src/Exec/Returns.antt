-- ===== src/Exec/Returns.antt =====
-- Total correctness of a method: it returns without an error, and what it returns and leaves is as
-- described.
use smolkafka.Prelude.{◌≡◌}
use smolkafka.Exec.{Result, ok, Exec, ◌>>=◌}

abbrev pub Returns {ℓ} : {S A : Type ℓ} → Result A × S → (A → S → Type ℓ) → Type ℓ
Returns {A} r Q = (a : A) × (r.0 ≡ ok a) × Q a r.1

module _ {ℓ} {S A : Type ℓ} where
  -- A method followed by another.
  pub Returns-bind :
      {B : Type ℓ} (m : Exec S A) (f : A → Exec S B) (s : S) (P : A → S → Type ℓ)
      (Q : B → S → Type ℓ)
      → Returns (m s) P
      → ((a : A) (t : S) → P a t → Returns (f a t) Q)
      → Returns ((m >>= f) s) Q
  Returns-bind m f s P Q (a, e, p) h = rw e (h a (m s).1 p)

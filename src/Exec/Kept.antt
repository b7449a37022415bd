-- ===== src/Exec/Kept.antt =====
-- What a method leaves true of the state, whether it fails or not.
use smolkafka.Prelude.{◌≡◌, refl}
use smolkafka.Exec.{Result, ok, err, Exec, continue, ◌>>=◌}

abbrev pub Kept {ℓ} : {S A : Type ℓ} → (S → Type ℓ) → Exec S A → Type ℓ
Kept {S} P m = (s : S) → P s → P (m s).1

module _ {ℓ} {S A B : Type ℓ} (P : S → Type ℓ) (m : Exec S A) (f : A → Exec S B) where
  -- The second method may use what the first one returned.
  pub Kept-bind_ok :
      Kept P m
      → ((a : A) (s : S) → (m s).0 ≡ ok a → P (m s).1 → P (f a (m s).1).1)
      → Kept P (m >>= f)
  Kept-bind_ok kept next s p = of_result (m s).0 refl
    where
      of_result : (r : Result A) → (m s).0 ≡ r → P (continue r f (m s).1).1
      of_result (ok a) e = next a s e (kept s p)
      of_result (err e) h = kept s p

  pub Kept-bind : Kept P m → ((a : A) → Kept P (f a)) → Kept P (m >>= f)
  Kept-bind kept next = Kept-bind_ok kept (λ a s e. next a (m s).1)

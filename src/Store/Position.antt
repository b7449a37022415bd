-- ===== src/Store/Position.antt =====
-- The position of a store's descriptor, from which `WriteTo` copies.
use smolkafka.Prelude.{
  ◌≡◌, refl, ap, sym, ◌∙◌, inl, inr, Bool, true, false, if◌then◌else◌, Bool-cases, [], ◌∷◌, ◌++◌,
  length, length-append, drop, leb, ◌==◌, ◌-◌, ℕ,
}
use smolkafka.Exec.{Result, Exec, Result-cases, ◌>>=◌}
use smolkafka.Bytes.{Bytes}
use smolkafka.Store.{
  Store, buf_size, file_write, flush, write_rest, write_over, write_open, write, append,
}

-- What a method leaves true, whatever it returns.
abbrev pub Stays : {S A : Type 0} → (S → Type 0) → Exec S A → Type 0
Stays {S} P m = (s : S) → P s → P (m s).1

pub Stays-bind :
    {S A B : Type 0} (P : S → Type 0) (m : Exec S A) (f : A → Exec S B)
    → Stays P m
    → ((a : A) → Stays P (f a))
    → Stays P (m >>= f)
Stays-bind P m f hm hf s h = elim (Result-cases (m s).0) [
  | inl (a, e) ↦ rw e (hf a (m s).1 (hm s h))
  | inr (x, e) ↦ rw e (hm s h)
]

-- The file holds nothing behind the position.
abbrev pub AtEnd : Store → Type 0
AtEnd s = drop s.file.pos s.file.contents ≡ []

pub drop-past : (xs : Bytes) → drop (length xs) xs ≡ []
drop-past [] = refl
drop-past (x ∷ xs) = drop-past xs

abbrev LeavesAtEnd : Result (Unit {0}) × Store → Type 0
LeavesAtEnd x = AtEnd x.1

either : {X : Type 0} (P : X → Type 0) (b : Bool) (x y : X) → P x → P y → P (if b then x else y)
either P true x y hx hy = hx
either P false x y hx hy = hy

file_write-AtEnd : (p : Bytes) → Stays AtEnd (file_write p)
unfolding file_write
file_write-AtEnd p s h = elim (Bool-cases s.file.is_closed) [
  | inl closed ↦ rw closed h
  | inr opened ↦ rw opened (
      ap (λ n. drop n (s.file.contents ++ p)) (sym (length-append s.file.contents p))
      ∙ drop-past (s.file.contents ++ p))
]

flush-AtEnd : Stays AtEnd flush
unfolding flush
flush-AtEnd s h =
    either LeavesAtEnd s.failed _ _ h
      (either LeavesAtEnd (length s.buf == 0) _ _ h (file_write-AtEnd s.buf s h))

write_rest-AtEnd : (p : Bytes) → Stays AtEnd (write_rest p)
unfolding write_rest
write_rest-AtEnd p s h = either LeavesAtEnd (leb (length p) buf_size) _ _ h (file_write-AtEnd p s h)

write_over-AtEnd : (room : ℕ) (p : Bytes) → Stays AtEnd (write_over room p)
unfolding write_over
write_over-AtEnd room p s h =
    Stays-bind AtEnd flush _ flush-AtEnd (λ _. write_rest-AtEnd (drop room p)) _ h

write-AtEnd : (p : Bytes) → Stays AtEnd (write p)
unfolding write write_open
write-AtEnd p s h = either LeavesAtEnd s.failed _ _ h (
    either LeavesAtEnd (leb (length p) (buf_size - length s.buf)) _ _ h (
      either LeavesAtEnd (length s.buf == 0) _ _ (file_write-AtEnd p s h)
        (write_over-AtEnd (buf_size - length s.buf) p s h)))

-- `Append` leaves nothing behind the position where there was nothing.
pub append-AtEnd : (p : Bytes) → Stays AtEnd (append p)
unfolding append
append-AtEnd p s h =
    Stays-bind AtEnd (write _) _ (write-AtEnd _)
      (λ _. Stays-bind AtEnd (write p) _ (write-AtEnd p) (λ _ t k. k)) s h

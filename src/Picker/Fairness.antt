-- ===== src/Picker/Fairness.antt =====
-- Every follower gets its turn.
use native.Mathlib.Nat.{mod-lt, mod-add-mod, mod-eq_of_lt, add-mod_right}
use smolkafka.Prelude.{
  ℕ, ◌+◌, ◌-◌, ◌%◌, ◌^◌, ◌<◌, ◌≡◌, sym, ap, ◌∙◌, true, false, some, arith, dec_lt, length,
  get_elem?, get_elem?-lt,
}
use smolkafka.Exec.{ok}
use smolkafka.Disk.{Name}
use smolkafka.Text.{contains}
use smolkafka.Picker.{Picker, produce, consume}
use smolkafka.Picker.RoundRobin.{pick_each, pick_each-consume}

-- The way from one place of a ring to another.
round_the_ring : (n c j : ℕ) → j < n → (i : ℕ) × (i < n) × ((c + i) % n ≡ j)
round_the_ring n c j inside = elim (dec_lt j (c % n)) [
  | yes behind ↦ (
    j + n - c % n,
    omega (arith, at, inside),
    sym (mod-add-mod c n (j + n - c % n))
        ∙ ap (λ k. k % n) (omega (arith, at))
        ∙ add-mod_right j n
        ∙ mod-eq_of_lt inside,
  )
  | no ahead ↦ (
    j - c % n,
    omega (arith, at, inside),
    sym (mod-add-mod c n (j - c % n)) ∙ ap (λ k. k % n) (omega (arith, at)) ∙ mod-eq_of_lt inside,
  )
]
  where
    at : c % n < n
    at = mod-lt c (omega arith)

-- Every follower gets its turn: in a row of as many consuming calls as there are followers, each
-- of them is picked, if the counter does not wrap.
pub pick_each-follower :
    (method : Name) (p : Picker) (f j : ℕ)
    → contains produce method ≡ false
    → contains consume method ≡ true
    → p.current + length p.followers < 2 ^ 64
    → get_elem? p.followers j ≡ some f
    → (i : ℕ) × (i < length p.followers)
      × (get_elem? (pick_each (length p.followers) method p) i ≡ some (ok f))
pick_each-follower method p f j no_produce is_consume small at =
    let inside = get_elem?-lt p.followers j at in
    let (i, le, there) = round_the_ring (length p.followers) (p.current + 1) j inside in
    (
      i,
      le,
      pick_each-consume (length p.followers) i method p f no_produce is_consume (omega arith) small
          le (ap (get_elem? p.followers) there ∙ at),
    )

-- ===== src/Picker/Orders.antt =====
-- `Build` goes over a map, whose items come in any order.
use mathlib.Core.List.{Perm, filter_map, mem-singleton, mem-cons_self}
use mathlib.Core.List.Perm
use smolkafka.Prelude.{
  ℕ, ◌≡◌, refl, ap, ◌∙◌, sym, Bool, true, false, Option, none, some, List, [], ◌∷◌,
}
use smolkafka.Picker.RoundRobin.{followers_of, leader_of}

-- The connection, if it is to a follower, or if it is to the leader.
abbrev pub follower : ℕ × Bool → Option ℕ
follower (sc, true) = none
follower (sc, false) = some sc

abbrev pub leading : ℕ × Bool → Option ℕ
leading (sc, true) = some sc
leading (sc, false) = none

-- The connections to leaders, in order.
abbrev pub leaders_of : List (ℕ × Bool) → List ℕ
leaders_of cs = filter_map leading cs

abbrev pub last_of : Option ℕ → List ℕ → Option ℕ
last_of old [] = old
last_of old (c ∷ cs) = last_of (some c) cs

followers_of-filter_map : (cs : List (ℕ × Bool)) → followers_of cs ≡ filter_map follower cs
unfolding filter_map
followers_of-filter_map [] = refl
followers_of-filter_map ((sc, true) ∷ cs) = followers_of-filter_map cs
followers_of-filter_map ((sc, false) ∷ cs) = ap (λ t. sc ∷ t) (followers_of-filter_map cs)

leader_of-filter_map :
    (old : Option ℕ) (cs : List (ℕ × Bool)) → leader_of old cs ≡ last_of old (filter_map leading cs)
unfolding filter_map
leader_of-filter_map old [] = refl
leader_of-filter_map old ((sc, true) ∷ cs) = leader_of-filter_map (some sc) cs
leader_of-filter_map old ((sc, false) ∷ cs) = leader_of-filter_map old cs

pub followers_of-Perm :
    (cs ds : List (ℕ × Bool)) → Perm cs ds → Perm (followers_of cs) (followers_of ds)
followers_of-Perm cs ds p =
    rw (followers_of-filter_map cs, followers_of-filter_map ds) (Perm.filter_map follower p)

-- One element or none.
abbrev pub AtMostOne : List ℕ → Type 0
AtMostOne [] = Unit
AtMostOne (x ∷ []) = Unit
AtMostOne (x ∷ y ∷ xs) = ⊥

AtMostOne-Perm : (xs ys : List ℕ) → Perm xs ys → AtMostOne ys → xs ≡ ys
AtMostOne-Perm xs [] p one = Perm.eq-nil p
AtMostOne-Perm [] (y ∷ []) p one = Perm.nil-eq p
AtMostOne-Perm (x ∷ []) (y ∷ []) p one =
    ap (λ t. t ∷ []) ((mem-singleton hlevel).0 ((Perm.mem_iff p).0 mem-cons_self))
AtMostOne-Perm (x ∷ x' ∷ xs) (y ∷ []) p one = cc (Perm.length-eq p)
AtMostOne-Perm xs (y ∷ y' ∷ ys) p one = absurd one

-- Where no two connections lead, the leader does not depend on the order.
pub leader_of-Perm :
    (old : Option ℕ) (cs ds : List (ℕ × Bool))
    → Perm cs ds
    → AtMostOne (leaders_of ds)
    → leader_of old cs ≡ leader_of old ds
leader_of-Perm old cs ds p one =
    leader_of-filter_map old cs
    ∙ ap (last_of old) (
        AtMostOne-Perm (filter_map leading cs) (filter_map leading ds) (Perm.filter_map leading p)
          one)
    ∙ sym (leader_of-filter_map old ds)

-- ===== src/Hashtable/Content.antt =====
-- What a table holds: the number of its nodes, and the nodes by slot.
use chat_hub.Base.{
  ℕ, zero, suc, ◌+◌, ◌≤◌, ◌<◌, ◌≡◌, refl, Option, none, some, [], ◌∷◌, length, get_elem?, set,
  replicate, arith,
}
use chat_hub.Hashtable.{HashNode, Slots}

abbrev pub weight : Option HashNode → ℕ
weight none = 0
weight (some node) = 1

unfoldable pub occupied : Slots → ℕ
occupied [] = 0
occupied (s ∷ ht) = weight s + occupied ht

-- `node` stands in slot `i`
abbrev pub HoldsAt : Slots → ℕ → HashNode → Type 0
HoldsAt ht i node = get_elem? ht i ≡ some (some node)

pub occupied-replicate : (n : ℕ) → occupied (replicate n none) ≡ 0
unfolding occupied
occupied-replicate zero = refl
occupied-replicate (suc n) = omega (arith, occupied-replicate n)

pub occupied-set :
    (ht : Slots) (i : ℕ) (old new : Option HashNode)
    → get_elem? ht i ≡ some old
    → occupied (set ht i new) + weight old ≡ occupied ht + weight new
unfolding occupied
occupied-set [] i old new e = ground arith
occupied-set (s ∷ ht) zero old new e = ground arith
occupied-set (s ∷ ht) (suc i) old new e = omega (arith, occupied-set ht i old new e)

-- A table that is not full has an empty slot.
pub empty_slot : (ht : Slots) → occupied ht < length ht → (j : ℕ) × (get_elem? ht j ≡ some none)
unfolding occupied
empty_slot [] h = elim h [ ]
empty_slot (none ∷ ht) h = (0, refl)
empty_slot (some n ∷ ht) h = let (j, e) = empty_slot ht (omega arith) in (suc j, e)

pub occupied-le : (ht : Slots) → occupied ht ≤ length ht
unfolding occupied
occupied-le [] = omega arith
occupied-le (none ∷ ht) = omega (arith, occupied-le ht)
occupied-le (some n ∷ ht) = omega (arith, occupied-le ht)

pub not_full : (ht : Slots) (j : ℕ) → get_elem? ht j ≡ some none → occupied ht < length ht
unfolding occupied
not_full [] j e = ground arith
not_full (s ∷ ht) zero e = ground (arith, occupied-le ht)
not_full (none ∷ ht) (suc j) e = omega (arith, not_full ht j e)
not_full (some n ∷ ht) (suc j) e = omega (arith, not_full ht j e)

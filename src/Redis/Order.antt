-- ===== src/Redis/Order.antt =====
-- The members of a set in any order: what the commands on sets read does not depend on it.
use mathlib.Core.List.{Permᴰ}
use mathlib.Core.List.Permᴰ as Order
use chat_hub.Base.{◌≡◌, ◌⊎◌, inl, inr, refl, ◌∙◌, Bool, ◌||◌, List, [], ◌∷◌, Bool-cases, arith}
use chat_hub.Text.{Bytes, same_string}
use chat_hub.Redis.Documented.{contains, remove_member}

or_swap : (a b c : Bool) → (a || (b || c)) ≡ (b || (a || c))
or_swap a b c = ground arith

pub contains-Perm : {ms ns : List Bytes} (v : Bytes) → Permᴰ ms ns → contains ms v ≡ contains ns v
unfolding contains
contains-Perm v Permᴰ.nil = refl
contains-Perm v (Permᴰ.cons e p) = let rest = contains-Perm v p in rw (e, rest)
contains-Perm v (Permᴰ.swap {a} {b} {a'} {b'} e e') =
    rw (e, e') (or_swap (same_string b' v) (same_string a' v) _)
contains-Perm v (Permᴰ.trans p q) = contains-Perm v p ∙ contains-Perm v q

pub remove_member-Perm :
    {ms ns : List Bytes} (v : Bytes) → Permᴰ ms ns → Permᴰ (remove_member ms v) (remove_member ns v)
unfolding remove_member
remove_member-Perm v Permᴰ.nil = Permᴰ.nil
remove_member-Perm v (Permᴰ.cons {a} {b} e p) = elim (Bool-cases (same_string b v)) [
  | inl same ↦ rw (e, same) (remove_member-Perm v p)
  | inr other ↦ rw (e, other) (Permᴰ.cons refl (remove_member-Perm v p))
]
remove_member-Perm v (Permᴰ.swap {a} {b} {a'} {b'} {l} e e') =
    elim (Bool-cases (same_string a' v)) [
      | inl x ↦ elim (Bool-cases (same_string b' v)) [
        | inl y ↦ rw (e, e', x, y) (Order.refl (remove_member l v))
        | inr y ↦ rw (e, e', x, y) (Order.refl (b' ∷ remove_member l v))
      ]
      | inr x ↦ elim (Bool-cases (same_string b' v)) [
        | inl y ↦ rw (e, e', x, y) (Order.refl (a' ∷ remove_member l v))
        | inr y ↦ rw (e, e', x, y) (Permᴰ.swap refl refl)
      ]
    ]
remove_member-Perm v (Permᴰ.trans p q) =
    Permᴰ.trans (remove_member-Perm v p) (remove_member-Perm v q)

-- the orders of a list of no, one and two members
pub Perm-nil : {ms ns : List Bytes} → Permᴰ ms ns → ns ≡ [] → ms ≡ []
Perm-nil Permᴰ.nil e = refl
Perm-nil (Permᴰ.cons s p) e = ground arith
Perm-nil (Permᴰ.swap s t) e = ground arith
Perm-nil (Permᴰ.trans p q) e = Perm-nil p (Perm-nil q e)

Perm-one : {ms ns : List Bytes} {x : Bytes} → Permᴰ ms ns → ns ≡ x ∷ [] → ms ≡ x ∷ []
Perm-one Permᴰ.nil e = e
Perm-one (Permᴰ.cons s p) e = let rest = Perm-nil p (ground arith) in ground arith
Perm-one (Permᴰ.swap s t) e = ground arith
Perm-one (Permᴰ.trans p q) e = Perm-one p (Perm-one q e)

abbrev IsPair : Bytes → Bytes → List Bytes → Type 0
IsPair x y ms = (ms ≡ x ∷ y ∷ []) ⊎ (ms ≡ y ∷ x ∷ [])

Perm-two : {ms ns : List Bytes} {x y : Bytes} → Permᴰ ms ns → IsPair x y ns → IsPair x y ms
Perm-two Permᴰ.nil h = h
Perm-two {x = x} {y = y} (Permᴰ.cons s p) (inl e) =
    let rest : _ ≡ y ∷ [] = Perm-one p (ground arith) in inl (ground arith)
Perm-two {x = x} {y = y} (Permᴰ.cons s p) (inr e) =
    let rest : _ ≡ x ∷ [] = Perm-one p (ground arith) in inr (ground arith)
Perm-two (Permᴰ.swap s t) (inl e) = inr (ground arith)
Perm-two (Permᴰ.swap s t) (inr e) = inl (ground arith)
Perm-two (Permᴰ.trans p q) h = Perm-two p (Perm-two q h)

pub Perm-pair :
    {ms : List Bytes} {x y : Bytes} → Permᴰ ms (x ∷ y ∷ []) → (ms ≡ x ∷ y ∷ []) ⊎ (ms ≡ y ∷ x ∷ [])
Perm-pair p = Perm-two p (inl refl)

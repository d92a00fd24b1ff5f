-- ===== src/Hashtable/Destroy.antt =====
-- `hash_destroy` (lib/hashtable.c): what it gives to `free`.
use chat_hub.Base.{
  ℕ, zero, suc, ◌+◌, ◌≡◌, ◌∙◌, refl, sym, ap, Option, none, some, List, [], ◌∷◌, length, drop,
  get_elem?, get_elem?-eq-some, arith,
}
use chat_hub.Run.{ok, ◌>>=◌, read_elem}
use chat_hub.Hashtable.{HashNode, HashMap, Slots, destroy_loop, hash_destroy, free_slot}
use chat_hub.Hashtable.Content.{occupied}
use chat_hub.Hashtable.Probed.{IsProbed}

-- the nodes of an array, in its order
unfoldable pub nodes : Slots → List HashNode
nodes [] = []
nodes (s ∷ ht) = free_slot s (nodes ht)

length-nodes : (ht : Slots) → length (nodes ht) ≡ occupied ht
unfolding nodes occupied
length-nodes [] = refl
length-nodes (none ∷ ht) = omega (arith, length-nodes ht)
length-nodes (some n ∷ ht) = omega (arith, length-nodes ht)

drop_step :
    (ht : Slots) (i : ℕ) (s : Option HashNode)
    → get_elem? ht i ≡ some s
    → nodes (drop i ht) ≡ free_slot s (nodes (drop (suc i) ht))
unfolding nodes
drop_step [] i s e = ground arith
drop_step (u ∷ ht) zero s e = ground arith
drop_step (u ∷ ht) (suc i) s e = drop_step ht i s e

drop_end : (ht : Slots) → nodes (drop (length ht) ht) ≡ []
unfolding nodes
drop_end [] = refl
drop_end (s ∷ ht) = drop_end ht

destroy_step :
    (rounds : ℕ) (ht : Slots) (i : ℕ) (s : Option HashNode)
    → get_elem? ht i ≡ some s
    → destroy_loop (suc rounds) ht i
      ≡ (destroy_loop rounds ht (i + 1) >>= λ freed. ok (free_slot s freed))
unfolding destroy_loop
destroy_step rounds ht i s there = rw (read_elem, there)

destroy_loop_lem :
    (rounds : ℕ) (ht : Slots) (i : ℕ)
    → i + rounds ≡ length ht
    → destroy_loop rounds ht i ≡ ok (nodes (drop i ht))
unfolding destroy_loop
destroy_loop_lem zero ht i e = let same : i ≡ length ht = omega arith in rw (same, drop_end ht)
destroy_loop_lem (suc rounds) ht i e =
    let (s, there) = get_elem?-eq-some ht i (omega arith) in
    destroy_step rounds ht i s there
    ∙ ap (λ m. m >>= λ freed. ok (free_slot s freed))
        (destroy_loop_lem rounds ht (i + 1) (omega arith))
    ∙ ap (λ (j : ℕ). ok (free_slot s (nodes (drop j ht)))) {y = suc i} (omega arith)
    ∙ ap ok (sym (drop_step ht i s there))

-- `hash_destroy` of a table with its invariant returns, and frees exactly the nodes of its array,
-- each once, as many as the table's `size` says.
pub hash_destroy_lem :
    {hm : HashMap}
    → IsProbed hm
    → (hash_destroy hm ≡ ok (nodes hm.slots)) × (length (nodes hm.slots) ≡ hm.size)
unfolding hash_destroy
hash_destroy_lem {hm} v = (
  rw (← v.shape) (destroy_loop_lem (length hm.slots) hm.slots 0 (omega arith)),
  length-nodes hm.slots ∙ sym v.counted,
)

-- ===== src/Hashtable/UnitTest.antt =====
-- The unit test in the last comment of lib/hashtable.c, and what it prints.
use chat_hub.Base.{ℕ, ◌≡◌, refl, List, [], ◌∷◌, pos}
use chat_hub.Run.{Run, ok, ◌>>=◌}
use chat_hub.Hashtable.{
  HashNode, hash_init, hash_of, next_slot, find, find_loop, hash_get, hash_set, set_loop,
  hash_delete, delete_loop, hash_destroy, destroy_loop,
}

-- the two sizes, the characters of the keys 1 and 2, and the nodes that are freed
unit_test : Run (ℕ × ℕ × ℕ × ℕ × List HashNode)
unit_test = hash_set (hash_init 5) (pos 1) b'a' >>= λ map. hash_set map (pos 1) b'b' >>= λ map.
    hash_set map (pos 2) b'd' >>= λ map. hash_set map (pos 2) b'c' >>= λ map.
    hash_set map (pos 3) b'e' >>= λ map. hash_set map (pos 4) b'e' >>= λ map.
    hash_set map (pos 5) b'F' >>= λ map. hash_set map (pos 6) b'E' >>= λ map.
    hash_delete map (pos 2) >>= λ deleted. hash_get deleted.0 (pos 1) >>= λ at_1.
    hash_get deleted.0 (pos 2) >>= λ at_2.
    hash_destroy deleted.0 >>= λ freed. ok (map.size, deleted.0.size, at_1, at_2, freed)

-- The update is seen, the key 6 does not fit, and the key 2 is gone.
unit_test_result :
    unit_test
    ≡ ok (
      5,
      4,
      b'b',
      0,
      record { key = pos 5; value = b'F' }
          ∷ record { key = pos 1; value = b'b' }
          ∷ record { key = pos 3; value = b'e' }
          ∷ record { key = pos 4; value = b'e' }
          ∷ [],
    )
unfolding unit_test hash_init hash_of next_slot find hash_get hash_set set_loop hash_delete
    delete_loop find_loop hash_destroy destroy_loop
unit_test_result = refl

-- ===== src/Hashtable/Examples.antt =====
-- The theorems of the table at concrete tables, and runs of its operations.
use chat_hub.Base.{
  ◌≢◌, ℕ, zero, suc, ◌≡◌, refl, none, some, [], ◌∷◌, pos, negsuc, length, if◌then◌else◌, eq_ℤ,
  arith,
}
use chat_hub.Run.{ok, fault, endless, ◌>>=◌}
use chat_hub.Hashtable.{
  HashNode, HashMap, hash_init, hash_of, next_slot, find, find_loop, hash_get, hash_set, set_loop,
  hash_delete, delete_loop, hash_destroy, destroy_loop,
}
use chat_hub.Hashtable.Seek.{seek}
use chat_hub.Hashtable.Content.{HoldsAt, occupied}
use chat_hub.Hashtable.Probed.{IsProbed, seek_key}
use chat_hub.Hashtable.Lookup.{hash_get-hash_set}
use chat_hub.Hashtable.Delete.{hash_get-hash_delete_hidden}
use chat_hub.Hashtable.Destroy.{nodes, hash_destroy_lem}
use mathlib.Core.Quot
use chat_hub.Hashtable.Quotient.{Table, Clients, Reads, hash_set_comm}
use chat_hub.Hashtable.Direct.{hash_init-IsDirect}
use chat_hub.Hashtable.Refine.{put, get, delete, run, run_table, run_from_init}

abbrev node_1 : HashNode
node_1 = record { key = pos 1; value = 7 }

abbrev node_5 : HashNode
node_5 = record { key = pos 5; value = 8 }

-- 5 has the hash of 1 and stands behind it
abbrev table : HashMap
table = record { slots = none ∷ some node_1 ∷ some node_5 ∷ none ∷ []; cap = 4; size = 2 }

program : Unit {0}
unfolding hash_init hash_of next_slot find hash_get hash_set set_loop hash_delete delete_loop
    find_loop seek occupied
program = tt

table_reach : (i : ℕ) (n : HashNode) → HoldsAt table.slots i n → seek_key table n.key ≡ ok i
unfolding program
table_reach zero n h = ground arith
table_reach (suc zero) n h = let e : node_1 ≡ n = ground arith in rw (← e) refl
table_reach (suc (suc zero)) n h = let e : node_5 ≡ n = ground arith in rw (← e) refl
table_reach (suc (suc (suc zero))) n h = ground arith
table_reach (suc (suc (suc (suc i)))) n h = ground arith

table-IsProbed : IsProbed table
unfolding occupied
table-IsProbed = record { pos = omega arith; shape = refl; counted = refl; reach = table_reach }

-- two keys of one hash, and the second found behind the first
collision : (hash_set (hash_init 4) (pos 1) 7 >>= λ a. hash_set a (pos 5) 8) ≡ ok table
unfolding program
collision = refl

-- the key is still in the array, and is not found
lost : (hash_delete table (pos 1) >>= λ r. hash_get r.0 (pos 5)) ≡ ok 0
unfolding program
lost = refl

full_hangs :
    hash_get (record { slots = some node_1 ∷ []; cap = 1; size = 1 }) (pos 2) ≡ fault endless
unfolding program
full_hangs = refl

negative_key : (hash_set (hash_init 4) (negsuc 0) 9 >>= λ a. hash_get a (negsuc 0)) ≡ ok 9
unfolding program
negative_key = refl

run_from_init_example :
    run (hash_init 8) (put 5 3 ∷ get 5 ∷ delete 5 ∷ get 5 ∷ [])
    ≡ ok (run_table (λ q. 0) (put 5 3 ∷ get 5 ∷ delete 5 ∷ get 5 ∷ []))
run_from_init_example =
    run_from_init 8 (put 5 3 ∷ get 5 ∷ delete 5 ∷ get 5 ∷ []) (omega arith) (omega arith)

hash_get-hash_set_example :
    (hash_set table (pos 9) 4 >>= λ a. hash_get a (pos 5))
    ≡ (if eq_ℤ (pos 5) (pos 9) then ok 4 else hash_get table (pos 5))
hash_get-hash_set_example = hash_get-hash_set (pos 9) 4 (pos 5) table-IsProbed (omega arith)

hash_get-hash_delete_hidden_example :
    (hash_delete table (pos 1) >>= λ r. hash_get r.0 (pos 5)) ≡ ok 0
hash_get-hash_delete_hidden_example = hash_get-hash_delete_hidden node_1 (pos 5) table-IsProbed refl

hash_destroy_lem_example :
    (hash_destroy table ≡ ok (nodes table.slots)) × (length (nodes table.slots) ≡ 2)
hash_destroy_lem_example = hash_destroy_lem table-IsProbed

destroyed : hash_destroy table ≡ ok (node_1 ∷ node_5 ∷ [])
unfolding hash_destroy destroy_loop
destroyed = refl

hash_init-cap : (hash_init 8).cap ≡ 8
unfolding hash_init
hash_init-cap = refl

abbrev clients : Table 8
clients = record {
  map = hash_init 8;
  valid = hash_init-IsDirect 8 (omega arith);
  same_cap = hash_init-cap;
}

different : ◌≢◌ {A = ℕ} 5 6
different = λ e. omega arith

hash_set_comm_example :
    (a : Table 8) × (b : Table 8) × ((hash_set (hash_init 8) (pos 5) 9 >>= λ h.
    hash_set h (pos 6) 7)
      ≡ ok a.map)
    × ((hash_set (hash_init 8) (pos 6) 7 >>= λ h. hash_set h (pos 5) 9) ≡ ok b.map)
    × (◌≡◌ {A = Clients 8} (Quot.mk a) (Quot.mk b))
    × Reads clients a 5 6 9 7
    × Reads clients b 5 6 9 7
hash_set_comm_example = hash_set_comm clients 5 6 9 7 (omega arith) (omega arith) different

-- ===== src/Server/Examples.antt =====
-- The theorems on the server at concrete messages, tables and connections.
use chat_hub.Base.{◌≡◌, refl, [], ◌∷◌, pos, ltb, if◌then◌else◌, arith}
use chat_hub.Run.{ok, fault, out_of_bounds}
use chat_hub.Exec.{value}
use chat_hub.Config.{Message, new_message}
use chat_hub.Hashtable.{hash_init}
use chat_hub.Hashtable.Direct.{hash_init-IsDirect, view}
use chat_hub.Message.Codec.{codec}
use chat_hub.Redis.Documented.{Db}
use chat_hub.Redis.Memory.{memory, empty_db}
use chat_hub.Dao.Interface.{redis_dao}
use chat_hub.Server.{State, handle_all_message}
use chat_hub.Server.Samples.{outside}
use chat_hub.Server.Dispatch.{handle_all_message_other}
use chat_hub.Server.Clients.{connected, event, table_after, Serves, serve_holds}

-- no client is connected, and the database holds `d`
abbrev start : Db → State Db
start d = record { clients = hash_init 4; store = d; written = [] }

abbrev list_chat : Message
list_chat = record new_message { type = pos 5 }

handle_all_message_other_example :
    handle_all_message (redis_dao memory) codec outside (λ b. pos b) 8 list_chat (start empty_db)
    ≡ (if ltb 5 15 then ok (value tt, start empty_db) else fault out_of_bounds)
handle_all_message_other_example =
    handle_all_message_other (redis_dao memory) codec outside (λ b. pos b) 8 list_chat
      (start empty_db) 5 refl (omega arith)

serve_holds_example :
    Serves
      (redis_dao memory)
      (λ b. b)
      (connected 1 ∷ connected 2 ∷ event 1 17 ∷ [])
      (start empty_db)
      (table_after (λ b. b) (view (hash_init 4)) (connected 1 ∷ connected 2 ∷ event 1 17 ∷ []))
unfolding hash_init
serve_holds_example =
    serve_holds (redis_dao memory) (λ b. b) (connected 1 ∷ connected 2 ∷ event 1 17 ∷ [])
      (start empty_db) (hash_init-IsDirect 4 (omega arith))
      ((refl, omega arith), ((refl, omega arith), (omega arith, tt)))

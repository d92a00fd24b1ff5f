-- ===== src/Lib.antt =====
-- ChatHub: a chat server and its client in C, over libevent, Redis and a JSON library.
--
-- A client sends one JSON message for a login, a registration, a logout or a chat text. The server
-- (server/server.c) keeps a table from socket descriptors to connections (lib/hashtable.c), reads
-- the user out of the message's text (lib/config.c), keeps users, chat rooms and messages in Redis
-- (server/dao.c), and passes chat texts on to the connections of the room's members.
--
-- * Hashtable models lib/hashtable.c and lib/hashtable.h: `hash_init`, `find`, `hash_get`,
--   `hash_set`, `hash_delete` and `hash_destroy` under their names, the last with the nodes that
--   it frees. Each `while` loop is a recursion with fuel (`find_loop`, `set_loop`, `delete_loop`)
--   that is given `cap` rounds; running out of them is the fault `endless`, which Hashtable/Stop
--   relates to the loop of the source; the `for` loop of `hash_destroy` takes `cap` rounds.
--   Hashtable/UnitTest is the test at the end of the file. The proofs go through
--   `Hashtable.Seek.seek`, the slot where all three loops stop. Hashtable/Probed and Lookup are
--   about arbitrary keys, Hashtable/Direct and Refine about descriptors with a slot each, and
--   Hashtable/Quotient about such tables up to what they hold and two insertions into them.
-- * Config models lib/config.h and lib/config.c: the constants, `User`, `Message`, `user2msg`,
--   `msg2user` and `currentTimeMillis` (`current_time_millis`); Config/Types the enumeration
--   `MessageType`; Config/Names relates it to the table `message_types`.
-- * Text holds what the source uses of the C library on strings: decimal output and input (its
--   fuel is the number plus one), words of `sscanf`, copies into arrays of a fixed size.
-- * Redis is the interface to hiredis and the database server: the commands that server/dao.c
--   sends, the replies, and one function that runs a command. Redis/Documented states what the
--   documentation of Redis says of these commands, for a reachable server that holds values of
--   this program's types; a set lists its members in an order that is not documented, and
--   Redis/Order has what does not depend on it. Redis/Memory is a database in memory that meets
--   these laws.
--   Redis/Keyspace has the laws of `KEYS` and `DEL`, over the set of keys alone, with a list of
--   keys that meets them.
-- * Dao models server/dao.c over that interface: Dao/Users the functions over users, Dao/Rooms
--   those over chat rooms and messages, under the names of the source (`del_chatroom` and
--   `leave_chatroom` are spelled with three o there). Dao/Users/Accounts and Dao/Users/Presence
--   are about what single functions read and write; Dao/Users/Refine has the specification of the
--   users, a list of names and passwords, and Dao/Users/Wrapped is about ids beyond an `int`. Of
--   the children of Dao/Rooms, Members and Presence are about the descriptors of a room, Log about
--   its messages, and Created, Left and Deleted about what happens to its set and its keys;
--   Dao/Rooms/Refine has the specification of the rooms, a list of members and a list of messages
--   for each. Dao/Interface is server/dao.h, the functions that the server is built on, and
--   Dao/Connection `open_db` and `close_db`. Exec is the monad of these functions: the state of
--   the database, the label `error:` of the `check` macro of lib/dbg.h, and faults.
-- * Message models lib/message.c: `pack_message` and `unpack_message`, over the interface `Parson`
--   to the JSON library, whose documented behaviour is the record `Documented` there;
--   Message/Codec is a concrete library that meets it. `print_message` is what it prints.
-- * Server models server/server.c: the handlers (`handle_all_message`, `handle_register`,
--   `handle_login`, `handle_logout`, `handle_chat`) as steps on the table of clients, the database
--   and the bytes written to connections; Server/Input the callbacks of libevent (`listener_cb`,
--   `readcb`, `eventcb`) with `connectClient` and `disconnectClient`. A connection is a number, 0
--   for NULL, whose descriptor is a parameter. The clock, uninitialised memory and the memory
--   behind a JSON text are values of the record `Outside`; one call of a handler sees one time.
--   The loop that reads the input (`drain`) has the input's length as fuel, and takes a byte or
--   more each round.
-- * Server/Chat is about what `handle_chat` sends and stores: Server/Chat/Room for the members
--   that the database lists, Server/Chat/Logs for the messages of the rooms, Server/Chat/Ordered
--   for a sequence of messages to a room, Server/Chat/Presence behind a login or a logout.
--   Server/Accounts runs `handle_all_message` over a sequence of registrations, logins and
--   logouts, each with its own clock, against the specification of the users.
-- * Server/Loop models the event loop: what each callback, `signal_cb` and `listener_errorcb`
--   among them, does to the state and to the loop (Libevent has the ways to end it), over the list
--   of the events that come; Server/Loop/Calm is about events without input, and Server/Keeps
--   about what the handlers leave alone. Server/Main models `initEvent`, `init_db`, `shutdown_db`
--   and `main` as the calls that they make, over what libevent and hiredis return.
-- * Client models client/client.c: `stdin_cb` (with `send_chat` and `send_login` for its
--   branches), `read_cb`, `event_cb` and `print_help` as steps on the client's user, its login
--   flag, what it has written and what it has printed; Client/Typed and Client/Chat are about what
--   is typed for a login and for a chat line. Client/Main is its event loop with `signal_cb`, and
--   its `main`.
-- * Session puts the two programs together, for logins and in Session/Chats for chat lines: what
--   the client writes is what the server reads, and the other way round. Session/Accounts has
--   sequences of registrations, logins and logouts from the bytes that arrive to the bytes that
--   are written.
-- * Run is the result of C code: a value, or a fault where the behaviour is undefined or a loop
--   does not end.
--
-- Not modelled: memory management (allocations are taken to succeed; releases are modelled where they
-- end a part of the program: `hash_destroy`, `close_db` and the ends of both event loops), the log
-- (Dbg has the macros of lib/dbg.h, and Exec keeps where they jump), libevent itself (which events
-- come, and when, and what it does with a listener that is freed after its base, is a parameter) and
-- lib/parson.c (a copy of a JSON library). The `int` that server/dao.c passes for `%lld` in two keys is
-- taken to be formatted as its number.
pub mod Base
pub mod Run
pub mod Hashtable
pub mod Text
pub mod Config
pub mod Libevent
pub mod Exec
pub mod Dbg
pub mod Process
pub mod Message
pub mod Redis
pub mod Server
pub mod Client
pub mod Session
pub mod Dao

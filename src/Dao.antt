-- ===== src/Dao.antt =====
-- server/dao.c and server/dao.h: users, chat rooms and messages in the database. The functions over
-- users are in Dao/Users, those over chat rooms and messages in Dao/Rooms, each with its theorems in
-- the modules below.
pub mod Keys
pub mod Users
pub mod Rooms
pub mod Connection
pub mod Interface
mod UnitTest
mod Examples

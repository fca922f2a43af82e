-- ===== src/Redis.antt =====
-- The Redis server, a service that the program only calls, and the programs that call it. A
-- command's documented effect is a function on the keyspace; a server is anything that carries
-- commands out, and the laws of `Server` say that it does so as documented while it is up.
pub mod Commands
pub mod Run
pub mod Script
pub mod Replies

-- ===== src/ChatRoom.antt =====
-- chatRoom/: a chat room whose messages are ordered by Raft.
pub mod Queue
pub mod Client
pub mod Server

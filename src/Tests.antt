-- ===== src/Tests.antt =====
-- Concrete inputs at which the theorems hold.
mod Buffers
mod Requests
mod Files
mod Sessions
mod Server
mod Uploads
mod Addresses
mod Startup
mod Replies
mod Windows
mod Hostile
mod Answers

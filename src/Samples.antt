-- ===== src/Samples.antt =====
-- The theorems at concrete inputs, and runs of the definitions.
mod Codec
mod Transport
mod Topics
mod Paths
mod Settings
mod Sockets
mod Requests
mod Desk
mod Hooking
mod Tree
mod Clients
mod Network
mod Dialogs
mod Threads

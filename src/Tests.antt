-- ===== src/Tests.antt =====
-- The witnesses of the theorems and the tests of the definitions.
mod Toy
mod Sha256
mod Sessions
mod Commands
mod Accounts
mod Settings
mod Uploads
mod Client
mod Pool
mod Semaphore
mod Server
mod Legacy
mod Downloads
mod Admin
mod Keyboard
mod Dialogue
mod Threads
mod Logins
mod Channels

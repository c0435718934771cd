-- ===== src/Tests.antt =====
-- Runs on concrete inputs, and the theorems at inputs that meet their hypotheses.
mod Codec
mod Machine
mod Sessions
mod Network
mod Memory
mod Library
mod Servers
mod Proxies
mod Conversations
mod Logins
mod Optionals
mod Threads
mod Accounting

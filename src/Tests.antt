-- ===== src/Tests.antt =====
-- Runs of the relay and of the host at concrete inputs, and the theorems applied there.
mod Sample
mod Server
mod Serving
mod Host
mod StateFile
mod Agent
mod Promise
mod Restart
mod Identity
mod Streams
mod System

-- ===== src/Tests.antt =====
-- Runs of the definitions, and each theorem at a concrete input.
mod Key
mod Base64
mod Posts
mod Server
mod Connection
mod Network
mod Numbers
mod Ed25519
mod Cli
mod Runs
mod Service
mod Rpc
mod RoundTrip
mod Tables

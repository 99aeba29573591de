-- ===== src/Tests.antt =====
-- Runs of the definitions on concrete data, and the theorems applied to it.
mod Shelf
mod Samples
mod Ids
mod Trees
mod Extents
mod Writes
mod Reads
mod Config
mod Compacting
mod Broker
mod Daemon
mod Directory
mod Requests
mod Recovery
mod Sessions
mod Bucket
mod Flights
mod Commands

-- ===== src/Tests.antt =====
-- Runs at concrete data, and the theorems applied to them.
mod Fixtures
mod Queues
mod Watchers
mod Stores
mod Scheduling
mod Reports
mod Joins
mod Certificates
mod Initializing
mod Serving
mod Watching
mod Streams
mod Simple
mod Access
mod Requests
mod Workers
mod Heartbeats
mod Servers

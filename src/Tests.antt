-- ===== src/Tests.antt =====
-- Examples: each theorem applied at concrete data.
mod Data
mod Collections
mod Marks
mod Custody
mod Mongo
mod Log
mod Votes
mod Keys
mod Calls
mod Gate

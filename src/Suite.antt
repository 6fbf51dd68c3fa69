-- ===== src/Suite.antt =====
-- The unit tests that stand in the files of src/: each a Boolean that runs its calls on the model, and
-- that it holds. A test that sleeps takes the clock, whose readings it makes in order.
mod Breakers
mod Buckets
mod Caches
mod Settings

-- ===== src/Tests.antt =====
-- Tests of the development: definitions run on concrete inputs, and each theorem that has
-- hypotheses applied where they hold.
mod Samples
mod Allocation
mod Storage
mod Workers
mod Device
mod Driver
mod Commands
mod Service
mod Lifecycle

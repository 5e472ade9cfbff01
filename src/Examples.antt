-- ===== src/Examples.antt =====
-- Runs at concrete inputs: the theorems' examples, and tests of the definitions.
mod States
mod Queue
mod Services
mod Api
mod Tables
mod Routes
mod Runs
mod Schema
mod Requests
mod App

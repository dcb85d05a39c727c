-- ===== src/Examples.antt =====
-- The theorems at concrete inputs, and tests of the definitions.
mod Flights
mod Lidar
mod Start
mod Address
mod Scans
mod Spins
mod Ending
mod Parts
mod Poles
mod Streams

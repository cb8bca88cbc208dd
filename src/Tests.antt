-- ===== src/Tests.antt =====
-- A small instance of the parameters, and the theorems at concrete inputs.
mod Sample
mod Laws
mod Stubs
mod Lines
mod Documents
mod Files
mod Clusters
mod Requests
mod Commands
mod Stores
mod Flights
mod Shutdowns
mod Loops
mod Batteries
mod Databases
mod Echoes
mod Certificates

-- ===== src/Examples.antt =====
-- Concrete inputs for the theorems, and the theorems at these inputs.
mod Device
mod Formats
mod Encodings
mod App
mod Poly
mod Lattice

-- ===== src/Tests.antt =====
-- The theorems at concrete inputs, and runs of the model.
mod Program
mod Sort
mod Loader
mod Alias
mod Arena
mod Backend
mod Load
mod Stdout
mod Examples
mod DataTypes
mod Characters

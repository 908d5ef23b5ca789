-- ===== src/Tests.antt =====
-- Concrete runs of the modelled code, and each property at a concrete input.
mod Processes
mod Pages
mod Library
mod Memory
mod Descriptors
mod Values
mod Tables
mod Keys
mod Blocks
mod Volumes
mod Text

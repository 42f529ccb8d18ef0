-- ===== src/SpecGenerator.antt =====
-- services/spec-generator: execution paths rendered as texts, which are stored with their versions
-- and embedded.
mod Models
mod Touched
mod Renderer
mod Store
mod Versions
mod Tables
mod Impact
mod Examples

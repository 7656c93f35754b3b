-- ===== src/Mutations.antt =====
-- What a mutation may touch and how mutations are proposed (src/neuroforge/mutations/).
pub mod Policy
pub mod Operators
pub mod Engine

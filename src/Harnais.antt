-- ===== src/Harnais.antt =====
-- myrag/app/harnais: the search of an assistant. A plan says which sources to ask, in which order;
-- the perimeter drops from it what the person may not read.
pub mod Contrat
pub mod Execution
pub mod Fusion
pub mod Perimetre
pub mod Plan

-- ===== src/Resana.antt =====
-- What a collection takes of a folder of Résana, and the documents that it leaves out.
pub mod Perimetre
pub mod Ecarts

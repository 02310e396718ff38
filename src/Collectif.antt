-- ===== src/Collectif.antt =====
-- The collective work around collections: the states of a collection and of a request.
pub mod Etats
pub mod Demandes
pub mod Journal
pub mod Circuit

-- ===== src/Retrieval.antt =====
-- The retrieval domain, backend/app/domain/rag/retrieval/.
pub mod Candidates
pub mod Selection

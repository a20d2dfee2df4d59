-- ===== src/Chunking.antt =====
-- The chunking domain, backend/app/domain/rag/chunking/. `nfc` is Unicode normalisation to NFC.
pub mod Policy
pub mod Text
pub mod Table
pub mod Metadata
pub mod Persistence
pub mod Code

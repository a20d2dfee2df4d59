-- ===== src/Memory.antt =====
-- The memory domain, backend/app/domain/memory/, with the shapes of
-- src/adaptive_tutor/tutor/memory.py. Instants are microseconds, confidence is in ten-thousandths.
pub mod Contracts
pub mod Validation
pub mod Gate
mod Tests

-- ===== src/Assessment.antt =====
-- The assessment domain, backend/app/domain/assessment/.
pub mod Contracts
pub mod Grading
pub mod Generation
pub mod Observer

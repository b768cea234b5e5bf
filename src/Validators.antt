-- ===== src/Validators.antt =====
-- src/lib/validators: the shared checks and normalisations of form input.
pub mod Form
pub mod Uuid
pub mod Date

-- ===== src/Output.antt =====
-- backend/app/output: the names of the rendered clips and the check of a rendered file.
pub mod Naming
pub mod Check

-- ===== src/Tests.antt =====
-- Concrete records, and the theorems at them.
mod Data
mod Evidence
mod Grading
mod Current
mod Situations
mod Health
mod Rollup
mod Acquisition
mod Claims
mod Attachment
mod Validation
mod Http

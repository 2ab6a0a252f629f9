-- ===== src/Tests.antt =====
-- Runs on concrete data, and the theorems at inputs that meet their hypotheses.
mod State
mod Redirect
mod Translations
mod Controlplane

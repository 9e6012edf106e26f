-- ===== src/Settings.antt =====
-- services/config/settings_service.py over repositories/settings_repo.py: the settings table, the
-- cache in front of it, and the default values. `Repository` is the table, `Defaults` the default
-- settings, `Service` the class, `Cache` and `Startup` what holds of them.
pub mod Repository
pub mod Defaults
pub mod Service
mod Tests

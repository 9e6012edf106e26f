-- ===== src/Scheduler.antt =====
-- services/base/scheduler_service.py. The clock, the downloads and the other services are arguments.
pub mod Jobs
pub mod Subscriptions
pub mod Polling
pub mod Vix

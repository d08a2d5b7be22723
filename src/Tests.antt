-- ===== src/Tests.antt =====
-- The theorems applied to concrete requests, events and schedules.
mod Handlers
mod Middleware
mod Policy
mod Recorder
mod Admin
mod Store
mod Event
mod E2e
mod Config
mod Metrics
mod Rollups
mod Tables
mod Clients
mod Served

-- ===== src/Tests.antt =====
-- The theorems at concrete values, over the stand-ins of the samples.
mod Checks
mod Wire
mod Announcements
mod Confirmator
mod Attach
mod Service
mod Owner

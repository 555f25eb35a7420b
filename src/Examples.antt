-- ===== src/Examples.antt =====
-- The theorems at concrete inputs, and tests of the definitions.
mod Splits
mod BackLayers
mod BackNavigation
mod BodyScroll
mod NativeState
mod WriteFlow
mod Memory
mod DemoSession
mod Categories
mod ApiClient
mod Navigation
mod Sharing
mod Session
mod Dates
mod Periods
mod Search

-- ===== src/Session.antt =====
-- The session of a user: web/src/app/app-context.tsx, web/src/platform/auth-session.ts,
-- web/src/platform/device-pin.ts, web/src/domain/currencies.ts and the gate of
-- web/src/components/device-access-gate.tsx.
pub mod Pins
pub mod Stored
pub mod App
pub mod Login
pub mod Workspaces
pub mod Gate
pub mod Digest
pub mod Hex
pub mod Invariant
pub mod Restart
pub mod Failures
pub mod Opening

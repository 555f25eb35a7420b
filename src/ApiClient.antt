-- ===== src/ApiClient.antt =====
-- web/src/lib/api-client.ts: requests to the API, the errors they end in, and the recovery for a
-- deployed API that still asks for a vault.
pub mod Json
pub mod Errors
pub mod Bodies
pub mod Vaults
pub mod Requests
pub mod Envelopes
pub mod Failures
pub mod Recovery

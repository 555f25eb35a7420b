-- ===== src/Lib.antt =====
-- Ledgerly, the web client: a model of its pure and stateful TypeScript code, and theorems about it.
--
-- The program is a finance application: a React client (web/src) over a Go API (api). The client's
-- own logic is in its domain, library, page-model and platform modules; each module here models one
-- of those files.
--
-- - Base: numbers, texts (lists of UTF-16 code units, the client's strings), lists, `Map`, stable
--   sorting, decimal notation, live closures.
-- - Splits: web/src/lib/transaction-splits.ts.
-- - Platform.BackLayers, Platform.BackNavigation, Platform.BodyScroll: the files of web/src/platform
--   with those names. Objects and closures are numbers, the module's variables are a record, and what
--   other code may do is a step relation.
-- - Platform.NativeState: web/src/platform/native-app-state.ts.
-- - Categories, Memory: web/src/domain/transaction-categories.ts and web/src/lib/transaction-memory.ts.
-- - Dates: web/src/lib/date-only.ts and the calendar of web/src/components/date-picker.tsx. A `Date`
--   at midnight is the number of its day from the start of the year 0. No day before that is met, as
--   a date that is read has a year from 100 on and no call goes back by more than a month.
-- - Periods: the reporting periods of web/src/pages/finance/home-transactions.tsx. A function that throws
--   where a value is no date gives none.
-- - DemoSession, WriteFlow: web/src/pages/finance-writes/shared.ts, the records of the demo and the life
--   of a dialog that writes. What happens to a dialog is a list of events.
-- - Search: web/src/lib/search.ts.
-- - Session: web/src/app/app-context.tsx with web/src/platform/auth-session.ts,
--   web/src/platform/device-pin.ts and web/src/components/device-access-gate.tsx. The provider's state and
--   what the browser keeps are one record; an operation that awaits takes the answer as an argument,
--   and is a step of the whole.
-- - Navigation, Settings: web/src/app/navigation/registry.ts and
--   web/src/pages/settings/settings-model.ts.
-- - Sharing: text.ts, whatsapp.ts and safe-public-url.ts of web/src/lib/share. The loop of
--   `fitEncodedText` runs on fuel, one round for each count between its bounds.
-- - ApiClient: web/src/lib/api-client.ts. A request is a function of the client's state and of the
--   world, over a record `Platform` of what the browser and the device give.
-- - Examples: the theorems at concrete inputs, and tests.
--
-- A JavaScript number is a natural number where the code only meets whole numbers that are not
-- negative. Where sums can pass 2^53 they are rounded as doubles are (Base.Doubles), whose distance is found
-- in at most 971 doublings, as an exponent is below 1024. Strings that are only compared may hold any code units. Code of other packages and of the
-- browser is a parameter: `decodeURIComponent`, the callbacks of back layers, the network, `JSON`, the
-- order of names in a locale, `encodeURIComponent`, `URL`, `URLSearchParams`, the bytes of SHA-256, `toUpperCase`,
-- the clock.
--
-- Three more functions run on fuel. The search for the year of a day is given one round more than its
-- number, and each round takes a year away. Decimal notation takes one round for each digit and is given one more than
-- the number; the search for a text that fits takes at most one round for each code point and one. That
-- is enough, since a number has no more digits than its value and one, and each round of the search
-- leaves fewer counts between its bounds. `unwrapResponseBody` has its bound of three rounds in the
-- source.
--
-- Not modelled: the React components, the styling, and the Go API; they are listed with the reason in
-- the project's manifest.
pub mod Base
pub mod Platform
pub mod Search
pub mod Session
pub mod Sharing
pub mod Settings
pub mod Navigation
pub mod ApiClient
pub mod WriteFlow
pub mod Splits
pub mod Memory
pub mod Periods
pub mod Dates
pub mod DemoSession
pub mod Categories
mod Examples

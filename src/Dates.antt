-- ===== src/Dates.antt =====
-- Calendar dates: web/src/lib/date-only.ts, and the calendar of web/src/components/date-picker.tsx.
pub mod Days
pub mod Scan
pub mod Inverse
pub mod DateOnly
pub mod Printing
pub mod Real
pub mod Texts
pub mod Reading
pub mod Months
pub mod Range
pub mod Moving
pub mod Picker
pub mod Grid
pub mod Focus

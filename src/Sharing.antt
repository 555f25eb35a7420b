-- ===== src/Sharing.antt =====
-- web/src/lib/share: texts that are cut to a number of code points, links to WhatsApp that are cut to
-- a length, and the test for a public URL.
pub mod Texts
pub mod WhatsApp
pub mod Links
pub mod Prefixes
pub mod Shrinking
pub mod Longest
pub mod PublicUrls
pub mod Hosts

-- ===== src/Platform.antt =====
-- The client's platform layer, web/src/platform: one module for each file.
pub mod BackLayers
pub mod BodyScroll
pub mod NativeState
pub mod BackNavigation

-- ===== src/Examples/BackNavigation.antt =====
-- The query of a page with a dialog; keys are decoded by `some`.

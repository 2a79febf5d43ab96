-- ===== src/Auth/Authorization/Tests.antt =====
-- The role catalog at concrete inputs.

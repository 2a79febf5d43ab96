-- ===== src/Auth/Authorization/Grants.antt =====
-- What the resolved roles permit.

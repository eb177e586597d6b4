-- ===== src/Service/Auth/Success.antt =====
-- When a login succeeds.

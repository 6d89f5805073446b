-- ===== src/Pic/Tests.antt =====
-- The end of the keyboard's interrupt.

-- ===== src/Constants/Mocks/Rebuild.antt =====
-- Rebuilding the definitions of a mock server: what it accepts, and the rows that it leaves.

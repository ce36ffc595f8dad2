-- ===== src/Mock.antt =====
-- The mock servers: app/mock_servers/services/runtime.
pub mod Registry
pub mod Routes

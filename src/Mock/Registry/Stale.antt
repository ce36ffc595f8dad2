-- ===== src/Mock/Registry/Stale.antt =====
-- Endpoints that two servers share.
use qsmith.Prelude.Dict.{Dict}
use qsmith.Mock.Registry.{Registry}

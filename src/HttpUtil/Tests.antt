-- ===== src/HttpUtil/Tests.antt =====
-- A response for a concrete host.

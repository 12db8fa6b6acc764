-- ===== src/Handlers/Callback/Served.antt =====
-- The callbacks of a server of src/piconaut/http/http_single_server.cc.

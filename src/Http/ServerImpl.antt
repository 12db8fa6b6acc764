-- ===== src/Http/ServerImpl.antt =====
-- `Configure` of `H2OServerImpl` in src/piconaut/http/impl/h2o_impl.h: the fields of libh2o's
-- structures that it writes, and its registrations at the fallback path, in their order.
pub mod Options
pub mod Workers
use piconaut.Prelude.{ℕ, Str, bytes, Bool, true, false, List, [], ◌∷◌, ◌++◌}
use piconaut.Http.Config.{
  HttpVersionMode, http1_1, http2, http2_auto_fallback, CompressionType, no_compression, gzip,
  brotli, Config,
}

-- The fields of `h2o_globalconf_t` that are written.
pub record GlobalConf : Type 0 where
  pub http1_req_timeout : ℕ
  pub http1_upgrade_to_http2 : ℕ
  pub http2_idle_timeout : ℕ
  pub http2_graceful_shutdown_timeout : ℕ
  pub http2_max_concurrent_requests_per_connection : ℕ
  pub http2_max_streams_for_priority : ℕ

-- `h2o_compress_args_t`: the two qualities.
pub record CompressArgs : Type 0 where
  pub gzip_quality : ℕ
  pub brotli_quality : ℕ

-- `h2o_headers_register` with its commands, each an H2O_HEADERS_CMD_ADD of a name and a value, and
-- `h2o_compress_register`.
pub data Registration : Type 0 where
  add_headers : List (Str × Str) → Registration
  compress : CompressArgs → Registration

pub record ServerImpl : Type 0 where
  pub global : GlobalConf
  pub compress_args : CompressArgs
  pub registrations : List Registration

abbrev pub register : Registration → ServerImpl → ServerImpl
register r s = record s { registrations = s.registrations ++ r ∷ [] }

abbrev pub cors_commands : Str → List (Str × Str)
cors_commands origins =
    (bytes "access-control-allow-origin", origins)
    ∷ (bytes "access-control-allow-methods", bytes "GET, POST, OPTIONS")
    ∷ (bytes "access-control-allow-headers", bytes "Content-Type")
    ∷ []

abbrev pub cors_of : Str → ServerImpl → ServerImpl
cors_of [] s = s
cors_of (c ∷ origins) s = register (add_headers (cors_commands (c ∷ origins))) s

unfoldable pub configure_cors : Config → ServerImpl → ServerImpl
configure_cors config s = cors_of config.cors s

abbrev pub no_quality : CompressArgs
no_quality = record { gzip_quality = 0; brotli_quality = 0 }

abbrev pub compression_of : CompressionType → ServerImpl → ServerImpl
compression_of no_compression s = record s { compress_args = no_quality }
compression_of gzip s =
    let args = record no_quality { gzip_quality = 1 } in
    register (compress args) (record s { compress_args = args })
compression_of brotli s =
    let args = record no_quality { brotli_quality = 1 } in
    register (compress args) (record s { compress_args = args })

unfoldable pub configure_compression : Config → ServerImpl → ServerImpl
configure_compression config s = compression_of config.compression s

abbrev pub http_options_of : HttpVersionMode → Config → GlobalConf → GlobalConf
http_options_of http1_1 config g = record g {
  http1_req_timeout = config.http1_request_timeout;
  http1_upgrade_to_http2 = 0;
}
http_options_of http2 config g = record g {
  http1_upgrade_to_http2 = 0;
  http2_idle_timeout = config.http2_idle_timeout;
  http2_graceful_shutdown_timeout = config.http2_graceful_shutdown_timeout;
  http2_max_concurrent_requests_per_connection =
      config.http2_max_concurrent_requests_per_connection;
  http2_max_streams_for_priority = config.http2_max_streams_for_priority;
}
http_options_of http2_auto_fallback config g = record g {
  http1_upgrade_to_http2 = 1;
  http2_idle_timeout = config.http2_idle_timeout;
  http2_graceful_shutdown_timeout = config.http2_graceful_shutdown_timeout;
  http2_max_concurrent_requests_per_connection =
      config.http2_max_concurrent_requests_per_connection;
  http2_max_streams_for_priority = config.http2_max_streams_for_priority;
}

unfoldable pub configure_http_options : Config → ServerImpl → ServerImpl
configure_http_options config s = record s {
  global = http_options_of config.http_version config s.global;
}

abbrev pub xss_of : Bool → ServerImpl → ServerImpl
xss_of false s = s
xss_of true s = register (add_headers ((bytes "x-xss-protection", bytes "1; mode=block") ∷ [])) s

unfoldable pub configure_xss_security : Config → ServerImpl → ServerImpl
configure_xss_security config s = xss_of config.xss_protection s

-- The body of its `if` is a comment.
unfoldable pub configure_csrf_security : Config → ServerImpl → ServerImpl
configure_csrf_security config s = s

unfoldable pub configure : Config → ServerImpl → ServerImpl
unfolding configure_http_options configure_compression configure_cors configure_xss_security
    configure_csrf_security
configure config s = configure_csrf_security config (
    configure_xss_security config
      (configure_cors config (configure_compression config (configure_http_options config s))))

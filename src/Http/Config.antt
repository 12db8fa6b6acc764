-- ===== src/Http/Config.antt =====
-- src/piconaut/http/config.cc, config.h and declare.h.
pub mod Settings
use piconaut.Prelude.{ℕ, ℤ, pos, Str, Bool, true, false, []}

pub data HttpVersionMode : Type 0 where
  http1_1 http2 http2_auto_fallback : HttpVersionMode

pub data CompressionType : Type 0 where
  no_compression gzip brotli : CompressionType

pub record Config : Type 0 where
  pub http_version : HttpVersionMode
  pub compression : CompressionType
  pub xss_protection : Bool
  pub csrf_protection : Bool
  pub rate_limit : ℤ
  pub connection_limit : ℤ
  pub cert_file : Str
  pub key_file : Str
  pub cors : Str
  pub http1_request_timeout : ℕ
  pub http2_idle_timeout : ℕ
  pub http2_graceful_shutdown_timeout : ℕ
  pub http2_max_concurrent_requests_per_connection : ℕ
  pub http2_max_streams_for_priority : ℕ

unfoldable pub new_config : Config
new_config = record {
  http_version = http2_auto_fallback;
  compression = no_compression;
  xss_protection = true;
  csrf_protection = false;
  rate_limit = pos 0;
  connection_limit = pos 0;
  cert_file = [];
  key_file = [];
  cors = [];
  http1_request_timeout = 30;
  http2_idle_timeout = 0;
  http2_graceful_shutdown_timeout = 0;
  http2_max_concurrent_requests_per_connection = 0;
  http2_max_streams_for_priority = 0;
}

unfoldable pub set_http_version : HttpVersionMode → Config → Config
set_http_version version c = record c { http_version = version }

unfoldable pub set_compression : CompressionType → Config → Config
set_compression type c = record c { compression = type }

unfoldable pub set_xss_protection : Bool → Config → Config
set_xss_protection enable c = record c { xss_protection = enable }

unfoldable pub set_csrf_protection : Bool → Config → Config
set_csrf_protection enable c = record c { csrf_protection = enable }

unfoldable pub set_dos_protection : ℤ → ℤ → Config → Config
set_dos_protection rate_limit connection_limit c = record c {
  rate_limit = rate_limit;
  connection_limit = connection_limit;
}

unfoldable pub set_https : Str → Str → Config → Config
set_https cert_file key_file c = record c { cert_file = cert_file; key_file = key_file }

unfoldable pub set_cors : Str → Config → Config
set_cors allowed_origins c = record c { cors = allowed_origins }

unfoldable pub set_http1_request_timeout : ℕ → Config → Config
set_http1_request_timeout timeout c = record c { http1_request_timeout = timeout }

unfoldable pub set_http2_idle_timeout : ℕ → Config → Config
set_http2_idle_timeout timeout c = record c { http2_idle_timeout = timeout }

unfoldable pub set_http2_graceful_shutdown_timeout : ℕ → Config → Config
set_http2_graceful_shutdown_timeout timeout c = record c {
  http2_graceful_shutdown_timeout = timeout;
}

unfoldable pub set_http2_max_concurrent_requests_per_connection : ℕ → Config → Config
set_http2_max_concurrent_requests_per_connection max_conn c = record c {
  http2_max_concurrent_requests_per_connection = max_conn;
}

unfoldable pub set_http2_max_streams_for_priority : ℕ → Config → Config
set_http2_max_streams_for_priority max_stream c = record c {
  http2_max_streams_for_priority = max_stream;
}

unfoldable pub get_http_version : Config → HttpVersionMode
get_http_version c = c.http_version

unfoldable pub get_compression : Config → CompressionType
get_compression c = c.compression

unfoldable pub get_xss_protection : Config → Bool
get_xss_protection c = c.xss_protection

unfoldable pub get_csrf_protection : Config → Bool
get_csrf_protection c = c.csrf_protection

unfoldable pub get_rate_limit : Config → ℤ
get_rate_limit c = c.rate_limit

unfoldable pub get_connection_limit : Config → ℤ
get_connection_limit c = c.connection_limit

unfoldable pub get_cert_file : Config → Str
get_cert_file c = c.cert_file

unfoldable pub get_key_file : Config → Str
get_key_file c = c.key_file

unfoldable pub get_cors : Config → Str
get_cors c = c.cors

unfoldable pub get_http1_request_timeout : Config → ℕ
get_http1_request_timeout c = c.http1_request_timeout

unfoldable pub get_http2_idle_timeout : Config → ℕ
get_http2_idle_timeout c = c.http2_idle_timeout

unfoldable pub get_http2_graceful_shutdown_timeout : Config → ℕ
get_http2_graceful_shutdown_timeout c = c.http2_graceful_shutdown_timeout

unfoldable pub get_http2_max_concurrent_requests_per_connection : Config → ℕ
get_http2_max_concurrent_requests_per_connection c = c.http2_max_concurrent_requests_per_connection

unfoldable pub get_http2_max_streams_for_priority : Config → ℕ
get_http2_max_streams_for_priority c = c.http2_max_streams_for_priority

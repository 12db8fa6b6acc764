-- ===== src/Http/Config/Settings.antt =====
-- The setters and the getters of src/piconaut/http/config.cc, called in any order.
use piconaut.Prelude.{
  ℕ, ℤ, pos, Str, Bool, true, false, Option, none, some, or_old, List, [], ◌∷◌, ◌≡◌, refl, arith,
  ◌∙◌, ap,
}
use piconaut.Http.Config.{
  HttpVersionMode, http2_auto_fallback, CompressionType, no_compression, Config, new_config,
  set_http_version, set_compression, set_xss_protection, set_csrf_protection, set_dos_protection,
  set_https, set_cors, set_http1_request_timeout, set_http2_idle_timeout,
  set_http2_graceful_shutdown_timeout, set_http2_max_concurrent_requests_per_connection,
  set_http2_max_streams_for_priority, get_http_version, get_compression, get_xss_protection,
  get_csrf_protection, get_rate_limit, get_connection_limit, get_cert_file, get_key_file, get_cors,
  get_http1_request_timeout, get_http2_idle_timeout, get_http2_graceful_shutdown_timeout,
  get_http2_max_concurrent_requests_per_connection, get_http2_max_streams_for_priority,
}

-- A call of a setter.
pub data Setting : Type 0 where
  http_version_to : HttpVersionMode → Setting
  compression_to : CompressionType → Setting
  xss_protection_to : Bool → Setting
  csrf_protection_to : Bool → Setting
  dos_protection_to : ℤ → ℤ → Setting
  https_to : Str → Str → Setting
  cors_to : Str → Setting
  http1_request_timeout_to : ℕ → Setting
  http2_idle_timeout_to : ℕ → Setting
  http2_graceful_shutdown_timeout_to : ℕ → Setting
  http2_max_concurrent_requests_per_connection_to : ℕ → Setting
  http2_max_streams_for_priority_to : ℕ → Setting

abbrev pub apply : Setting → Config → Config
apply (http_version_to version) c = set_http_version version c
apply (compression_to type) c = set_compression type c
apply (xss_protection_to enable) c = set_xss_protection enable c
apply (csrf_protection_to enable) c = set_csrf_protection enable c
apply (dos_protection_to rate connections) c = set_dos_protection rate connections c
apply (https_to cert key) c = set_https cert key c
apply (cors_to origins) c = set_cors origins c
apply (http1_request_timeout_to n) c = set_http1_request_timeout n c
apply (http2_idle_timeout_to n) c = set_http2_idle_timeout n c
apply (http2_graceful_shutdown_timeout_to n) c = set_http2_graceful_shutdown_timeout n c
apply (http2_max_concurrent_requests_per_connection_to n) c =
    set_http2_max_concurrent_requests_per_connection n c
apply (http2_max_streams_for_priority_to n) c = set_http2_max_streams_for_priority n c

-- The configuration after the calls, the last one first.
abbrev pub configure : List Setting → Config
configure [] = new_config
configure (s ∷ settings) = apply s (configure settings)

-- A getter, by the type of what it returns.
pub data Getter : Type 0 → Type 1 where
  the_http_version : Getter HttpVersionMode
  the_compression : Getter CompressionType
  the_xss_protection : Getter Bool
  the_csrf_protection : Getter Bool
  the_rate_limit : Getter ℤ
  the_connection_limit : Getter ℤ
  the_cert_file : Getter Str
  the_key_file : Getter Str
  the_cors : Getter Str
  the_http1_request_timeout : Getter ℕ
  the_http2_idle_timeout : Getter ℕ
  the_http2_graceful_shutdown_timeout : Getter ℕ
  the_http2_max_concurrent_requests_per_connection : Getter ℕ
  the_http2_max_streams_for_priority : Getter ℕ

abbrev pub get : {A : Type 0} → Getter A → Config → A
get the_http_version c = get_http_version c
get the_compression c = get_compression c
get the_xss_protection c = get_xss_protection c
get the_csrf_protection c = get_csrf_protection c
get the_rate_limit c = get_rate_limit c
get the_connection_limit c = get_connection_limit c
get the_cert_file c = get_cert_file c
get the_key_file c = get_key_file c
get the_cors c = get_cors c
get the_http1_request_timeout c = get_http1_request_timeout c
get the_http2_idle_timeout c = get_http2_idle_timeout c
get the_http2_graceful_shutdown_timeout c = get_http2_graceful_shutdown_timeout c
get the_http2_max_concurrent_requests_per_connection c =
    get_http2_max_concurrent_requests_per_connection c
get the_http2_max_streams_for_priority c = get_http2_max_streams_for_priority c

-- What a call sets for a getter, if it is the call of its setter.
abbrev pub value_set : {A : Type 0} → Getter A → Setting → Option A
value_set the_http_version (http_version_to version) = some version
value_set the_compression (compression_to type) = some type
value_set the_xss_protection (xss_protection_to enable) = some enable
value_set the_csrf_protection (csrf_protection_to enable) = some enable
value_set the_rate_limit (dos_protection_to rate connections) = some rate
value_set the_connection_limit (dos_protection_to rate connections) = some connections
value_set the_cert_file (https_to cert key) = some cert
value_set the_key_file (https_to cert key) = some key
value_set the_cors (cors_to origins) = some origins
value_set the_http1_request_timeout (http1_request_timeout_to n) = some n
value_set the_http2_idle_timeout (http2_idle_timeout_to n) = some n
value_set the_http2_graceful_shutdown_timeout (http2_graceful_shutdown_timeout_to n) = some n
value_set the_http2_max_concurrent_requests_per_connection
      (http2_max_concurrent_requests_per_connection_to n) =
    some n
value_set the_http2_max_streams_for_priority (http2_max_streams_for_priority_to n) = some n
value_set getter setting = none

-- What a getter returns when no setter has been called.
abbrev pub default : {A : Type 0} → Getter A → A
default the_http_version = http2_auto_fallback
default the_compression = no_compression
default the_xss_protection = true
default the_csrf_protection = false
default the_rate_limit = pos 0
default the_connection_limit = pos 0
default the_cert_file = []
default the_key_file = []
default the_cors = []
default the_http1_request_timeout = 30
default the_http2_idle_timeout = 0
default the_http2_graceful_shutdown_timeout = 0
default the_http2_max_concurrent_requests_per_connection = 0
default the_http2_max_streams_for_priority = 0

-- What the last of the calls has set that sets something for the getter.
abbrev pub last_set : {A : Type 0} → Getter A → List Setting → A
last_set getter [] = default getter
last_set getter (s ∷ settings) = or_old (value_set getter s) (last_set getter settings)

get-apply :
    {A : Type 0} (getter : Getter A) (s : Setting) (c : Config)
    → get getter (apply s c) ≡ or_old (value_set getter s) (get getter c)
unfolding set_http_version set_compression set_xss_protection set_csrf_protection set_dos_protection
    set_https set_cors set_http1_request_timeout set_http2_idle_timeout
    set_http2_graceful_shutdown_timeout set_http2_max_concurrent_requests_per_connection
    set_http2_max_streams_for_priority get_http_version get_compression get_xss_protection
    get_csrf_protection get_rate_limit get_connection_limit get_cert_file get_key_file get_cors
    get_http1_request_timeout get_http2_idle_timeout get_http2_graceful_shutdown_timeout
    get_http2_max_concurrent_requests_per_connection get_http2_max_streams_for_priority
get-apply the_http_version s c = ground arith
get-apply the_compression s c = ground arith
get-apply the_xss_protection s c = ground arith
get-apply the_csrf_protection s c = ground arith
get-apply the_rate_limit s c = ground arith
get-apply the_connection_limit s c = ground arith
get-apply the_cert_file s c = ground arith
get-apply the_key_file s c = ground arith
get-apply the_cors s c = ground arith
get-apply the_http1_request_timeout s c = ground arith
get-apply the_http2_idle_timeout s c = ground arith
get-apply the_http2_graceful_shutdown_timeout s c = ground arith
get-apply the_http2_max_concurrent_requests_per_connection s c = ground arith
get-apply the_http2_max_streams_for_priority s c = ground arith

get-new : {A : Type 0} (getter : Getter A) → get getter new_config ≡ default getter
unfolding new_config get_http_version get_compression get_xss_protection get_csrf_protection
    get_rate_limit get_connection_limit get_cert_file get_key_file get_cors
    get_http1_request_timeout get_http2_idle_timeout get_http2_graceful_shutdown_timeout
    get_http2_max_concurrent_requests_per_connection get_http2_max_streams_for_priority
get-new the_http_version = refl
get-new the_compression = refl
get-new the_xss_protection = refl
get-new the_csrf_protection = refl
get-new the_rate_limit = refl
get-new the_connection_limit = refl
get-new the_cert_file = refl
get-new the_key_file = refl
get-new the_cors = refl
get-new the_http1_request_timeout = refl
get-new the_http2_idle_timeout = refl
get-new the_http2_graceful_shutdown_timeout = refl
get-new the_http2_max_concurrent_requests_per_connection = refl
get-new the_http2_max_streams_for_priority = refl

-- Whatever setters have been called, a getter returns what the last call of its setter has set, or the
-- constructor's value.
pub get-configure :
    {A : Type 0} (getter : Getter A) (settings : List Setting)
    → get getter (configure settings) ≡ last_set getter settings
get-configure getter [] = get-new getter
get-configure getter (s ∷ settings) =
    get-apply getter s (configure settings)
    ∙ ap (or_old (value_set getter s)) (get-configure getter settings)

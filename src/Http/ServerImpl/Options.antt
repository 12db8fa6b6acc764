-- ===== src/Http/ServerImpl/Options.antt =====
-- What a configuration comes to in src/piconaut/http/impl/h2o_impl.h.
use piconaut.Prelude.{
  Str, bytes, Bool, true, false, List, [], ◌∷◌, ◌++◌, ◌≡◌, ◌↔◌, refl, arith, append_assoc,
  append-nil, ℤ, sym, ap, ◌∙◌,
}
use piconaut.Http.Config.{
  HttpVersionMode, http1_1, http2, http2_auto_fallback, CompressionType, no_compression, gzip,
  brotli, Config, set_csrf_protection, set_dos_protection, set_https,
}
use piconaut.Http.ServerImpl.{
  ServerImpl, GlobalConf, Registration, add_headers, compress, configure, cors_of, cors_commands,
  compression_of, http_options_of, xss_of,
}

global-cors_of : (origins : Str) (s : ServerImpl) → (cors_of origins s).global ≡ s.global
global-cors_of [] s = refl
global-cors_of (c ∷ origins) s = refl

global-compression_of :
    (t : CompressionType) (s : ServerImpl) → (compression_of t s).global ≡ s.global
global-compression_of no_compression s = refl
global-compression_of gzip s = refl
global-compression_of brotli s = refl

global-xss_of : (enable : Bool) (s : ServerImpl) → (xss_of enable s).global ≡ s.global
global-xss_of true s = refl
global-xss_of false s = refl

global-configure :
    (config : Config) (s : ServerImpl)
    → (configure config s).global ≡ http_options_of config.http_version config s.global
unfolding configure
global-configure config s =
    global-xss_of config.xss_protection _
    ∙ global-cors_of config.cors _
    ∙ global-compression_of config.compression _

upgrade_of_mode :
    (mode : HttpVersionMode) (config : Config) (g : GlobalConf)
    → ((http_options_of mode config g).http1_upgrade_to_http2 ≡ 1) ↔ (mode ≡ http2_auto_fallback)
upgrade_of_mode http1_1 config g = (λ e. absurd (omega arith), λ e. cc e)
upgrade_of_mode http2 config g = (λ e. absurd (omega arith), λ e. cc e)
upgrade_of_mode http2_auto_fallback config g = (λ e. refl, λ e. refl)

-- After Configure, the upgrade of HTTP/1 connections to HTTP/2 is on (1) exactly when the
-- configuration's mode is HTTP2_AUTO_FALLBACK, whatever was set before.
pub upgrade_iff :
    (config : Config) (s : ServerImpl)
    → ((configure config s).global.http1_upgrade_to_http2 ≡ 1)
      ↔ (config.http_version ≡ http2_auto_fallback)
upgrade_iff config s = rw global-configure (upgrade_of_mode config.http_version config s.global)

-- What is registered for each setting.
abbrev pub compression_registrations : CompressionType → List Registration
compression_registrations no_compression = []
compression_registrations gzip = compress (record { gzip_quality = 1; brotli_quality = 0 }) ∷ []
compression_registrations brotli = compress (record { gzip_quality = 0; brotli_quality = 1 }) ∷ []

abbrev pub cors_registrations : Str → List Registration
cors_registrations [] = []
cors_registrations (c ∷ origins) = add_headers (cors_commands (c ∷ origins)) ∷ []

abbrev pub xss_registrations : Bool → List Registration
xss_registrations false = []
xss_registrations true = add_headers ((bytes "x-xss-protection", bytes "1; mode=block") ∷ []) ∷ []

registered_compression :
    (t : CompressionType) (s : ServerImpl)
    → (compression_of t s).registrations ≡ s.registrations ++ compression_registrations t
registered_compression no_compression s = sym (append-nil s.registrations)
registered_compression gzip s = refl
registered_compression brotli s = refl

registered_cors :
    (origins : Str) (s : ServerImpl)
    → (cors_of origins s).registrations ≡ s.registrations ++ cors_registrations origins
registered_cors [] s = sym (append-nil s.registrations)
registered_cors (c ∷ origins) s = refl

registered_xss :
    (enable : Bool) (s : ServerImpl)
    → (xss_of enable s).registrations ≡ s.registrations ++ xss_registrations enable
registered_xss false s = sym (append-nil s.registrations)
registered_xss true s = refl

-- Configure appends to the registrations at the fallback path those for the compression, the CORS
-- headers and the XSS header that the configuration asks for, in this order, and nothing else.
pub registrations-configure :
    (config : Config) (s : ServerImpl)
    → (configure config s).registrations
      ≡ s.registrations
        ++ (compression_registrations config.compression
            ++ (cors_registrations config.cors ++ xss_registrations config.xss_protection))
unfolding configure
registrations-configure config s =
    registered_xss config.xss_protection _
    ∙ ap (λ l. l ++ xss_registrations config.xss_protection)
        (registered_cors config.cors _
          ∙ ap (λ l. l ++ cors_registrations config.cors)
              (registered_compression config.compression _))
    ∙ simp append_assoc

module _ (enable : Bool) (rate connections : ℤ) (cert key : Str) (config : Config) where
  abbrev unused : Config
  unused =
      set_csrf_protection enable (set_dos_protection rate connections (set_https cert key config))

  options_ignored :
      (mode : HttpVersionMode) (g : GlobalConf)
      → http_options_of mode unused g ≡ http_options_of mode config g
  unfolding set_csrf_protection set_dos_protection set_https
  options_ignored http1_1 g = refl
  options_ignored http2 g = refl
  options_ignored http2_auto_fallback g = refl

  -- Configure does the same whatever is set for the protection against CSRF, the limits against
  -- denial of service, and the certificate and key of HTTPS.
  pub settings_ignored :
      (s : ServerImpl)
      → configure
          (set_csrf_protection enable
            (set_dos_protection rate connections (set_https cert key config)))
          s
        ≡ configure config s
  unfolding configure set_csrf_protection set_dos_protection set_https
  settings_ignored s =
      ap
        (λ g.
          xss_of config.xss_protection
            (cors_of config.cors (compression_of config.compression (record s { global = g }))))
        (options_ignored config.http_version s.global)

-- ===== src/Config/Types.antt =====
-- src/config/app_config.h: the settings, and their defaults.
use network_proxy.Prelude.{Bytes, codes, ℕ, Bool, true, false, []}

pub record AppConfig : Type 0 where
  pub capture_enabled : Bool
  pub use_wfp : Bool
  pub use_windivert : Bool
  pub wfp_filter : Bytes
  pub wfp_redirect_enabled : Bool
  pub wfp_redirect_allow_startup_fallback : Bool
  pub wfp_redirect_allow_runtime_fallback : Bool
  pub wfp_callout_channel : Bytes
  pub wfp_redirect_filter : Bytes
  pub windivert_filter : Bytes
  pub tcp_enabled : Bool
  pub tcp_listen_host : Bytes
  pub tcp_listen_port : ℕ
  pub tcp_upstream_host : Bytes
  pub tcp_upstream_port : ℕ
  pub udp_enabled : Bool
  pub udp_listen_host : Bytes
  pub udp_listen_port : ℕ
  pub udp_upstream_host : Bytes
  pub udp_upstream_port : ℕ
  pub log_level : Bytes
  pub dry_run : Bool
  pub max_runtime_seconds : ℕ
  pub protocol_adapter_enabled : Bool
  pub http_adapter_enabled : Bool
  pub rules_enabled : Bool
  pub rules_file_path : Bytes
  pub https_mitm_enabled : Bool
  pub https_ca_cert_path : Bytes
  pub https_ca_key_path : Bytes
  pub https_ca_subject_name : Bytes
  pub https_install_to_current_user : Bool
  pub https_cert_cache_dir : Bytes
  pub openssl_bin_path : Bytes
  pub https_plaintext_test_mode : Bool
  pub add_proxy_header : Bool
  pub append_debug_suffix : Bool
  pub enable_text_patch : Bool
  pub enable_hex_patch : Bool
  pub outbound_find : Bytes
  pub outbound_replace : Bytes
  pub inbound_find : Bytes
  pub inbound_replace : Bytes
  pub outbound_find_hex : Bytes
  pub outbound_replace_hex : Bytes
  pub inbound_find_hex : Bytes
  pub inbound_replace_hex : Bytes

abbrev pub default_config : AppConfig
default_config = record {
  capture_enabled = false;
  use_wfp = false;
  use_windivert = false;
  wfp_filter = codes "ip and (tcp or udp)";
  wfp_redirect_enabled = false;
  wfp_redirect_allow_startup_fallback = true;
  wfp_redirect_allow_runtime_fallback = true;
  wfp_callout_channel = codes "local://network_proxy_callout";
  wfp_redirect_filter = codes "ip and (tcp or udp)";
  windivert_filter = codes "ip and (tcp or udp)";
  tcp_enabled = true;
  tcp_listen_host = codes "127.0.0.1";
  tcp_listen_port = 18080;
  tcp_upstream_host = codes "127.0.0.1";
  tcp_upstream_port = 28080;
  udp_enabled = true;
  udp_listen_host = codes "127.0.0.1";
  udp_listen_port = 18081;
  udp_upstream_host = codes "127.0.0.1";
  udp_upstream_port = 28081;
  log_level = codes "info";
  dry_run = true;
  max_runtime_seconds = 0;
  protocol_adapter_enabled = true;
  http_adapter_enabled = true;
  rules_enabled = true;
  rules_file_path = codes "config/rules.dsl";
  https_mitm_enabled = false;
  https_ca_cert_path = [];
  https_ca_key_path = [];
  https_ca_subject_name = codes "NetworkProxy Local CA";
  https_install_to_current_user = true;
  https_cert_cache_dir = codes "cert/cache";
  openssl_bin_path = codes "openssl";
  https_plaintext_test_mode = false;
  add_proxy_header = true;
  append_debug_suffix = true;
  enable_text_patch = true;
  enable_hex_patch = false;
  outbound_find = [];
  outbound_replace = [];
  inbound_find = [];
  inbound_replace = [];
  outbound_find_hex = [];
  outbound_replace_hex = [];
  inbound_find_hex = [];
  inbound_replace_hex = [];
}

-- ===== src/Config/Keys.antt =====
-- src/config/app_config.cpp: the chain of `full_key` tests, one function for each section.
pub mod Written
use network_proxy.Prelude.{if◌then◌else◌, Bytes, codes, eqb, Option, none, some}
use network_proxy.Common.{to_lower_copy}
use network_proxy.Config.Types.{AppConfig}
use network_proxy.Config.Parse.{parse_bool, parse_u16, parse_u32}

-- What a key does: it is not known and changes nothing, its value is stored, or is refused.
pub data Outcome : Type 0 where
  unknown invalid : Outcome
  stored : AppConfig → Outcome

abbrev pub store_parsed : {A : Type 0} → Option A → (A → AppConfig) → Outcome
store_parsed none f = invalid
store_parsed (some a) f = stored (f a)

unfoldable pub set_capture : Bytes → Bytes → AppConfig → Outcome
set_capture full_key value c =
    if eqb full_key (codes "capture.enabled")
    then store_parsed (parse_bool value) (λ v. record c { capture_enabled = v })
    else if eqb full_key (codes "capture.use_windivert")
    then store_parsed (parse_bool value) (λ v. record c { use_windivert = v })
    else if eqb full_key (codes "capture.use_wfp")
    then store_parsed (parse_bool value) (λ v. record c { use_wfp = v })
    else if eqb full_key (codes "capture.wfp_filter")
    then stored (record c { wfp_filter = value })
    else if eqb full_key (codes "capture.wfp_redirect_enabled")
    then store_parsed (parse_bool value) (λ v. record c { wfp_redirect_enabled = v })
    else if eqb full_key (codes "capture.wfp_redirect_allow_startup_fallback")
    then store_parsed (parse_bool value) (λ v. record c { wfp_redirect_allow_startup_fallback = v })
    else if eqb full_key (codes "capture.wfp_redirect_allow_runtime_fallback")
    then store_parsed (parse_bool value) (λ v. record c { wfp_redirect_allow_runtime_fallback = v })
    else if eqb full_key (codes "capture.wfp_callout_channel")
    then stored (record c { wfp_callout_channel = value })
    else if eqb full_key (codes "capture.wfp_redirect_filter")
    then stored (record c { wfp_redirect_filter = value })
    else if eqb full_key (codes "capture.windivert_filter")
    then stored (record c { windivert_filter = value })
    else unknown

unfoldable pub set_tcp : Bytes → Bytes → AppConfig → Outcome
set_tcp full_key value c =
    if eqb full_key (codes "tcp.enabled")
    then store_parsed (parse_bool value) (λ v. record c { tcp_enabled = v })
    else if eqb full_key (codes "tcp.listen_host")
    then stored (record c { tcp_listen_host = value })
    else if eqb full_key (codes "tcp.listen_port")
    then store_parsed (parse_u16 value) (λ v. record c { tcp_listen_port = v })
    else if eqb full_key (codes "tcp.upstream_host")
    then stored (record c { tcp_upstream_host = value })
    else if eqb full_key (codes "tcp.upstream_port")
    then store_parsed (parse_u16 value) (λ v. record c { tcp_upstream_port = v })
    else unknown

unfoldable pub set_udp : Bytes → Bytes → AppConfig → Outcome
set_udp full_key value c =
    if eqb full_key (codes "udp.enabled")
    then store_parsed (parse_bool value) (λ v. record c { udp_enabled = v })
    else if eqb full_key (codes "udp.listen_host")
    then stored (record c { udp_listen_host = value })
    else if eqb full_key (codes "udp.listen_port")
    then store_parsed (parse_u16 value) (λ v. record c { udp_listen_port = v })
    else if eqb full_key (codes "udp.upstream_host")
    then stored (record c { udp_upstream_host = value })
    else if eqb full_key (codes "udp.upstream_port")
    then store_parsed (parse_u16 value) (λ v. record c { udp_upstream_port = v })
    else unknown

unfoldable pub set_runtime : Bytes → Bytes → AppConfig → Outcome
set_runtime full_key value c =
    if eqb full_key (codes "runtime.log_level")
    then stored (record c { log_level = to_lower_copy value })
    else if eqb full_key (codes "runtime.dry_run")
    then store_parsed (parse_bool value) (λ v. record c { dry_run = v })
    else if eqb full_key (codes "runtime.max_runtime_seconds")
    then store_parsed (parse_u32 value) (λ v. record c { max_runtime_seconds = v })
    else unknown

unfoldable pub set_protocol : Bytes → Bytes → AppConfig → Outcome
set_protocol full_key value c =
    if eqb full_key (codes "protocol.enabled")
    then store_parsed (parse_bool value) (λ v. record c { protocol_adapter_enabled = v })
    else if eqb full_key (codes "protocol.http_enabled")
    then store_parsed (parse_bool value) (λ v. record c { http_adapter_enabled = v })
    else unknown

unfoldable pub set_rules : Bytes → Bytes → AppConfig → Outcome
set_rules full_key value c =
    if eqb full_key (codes "rules.enabled")
    then store_parsed (parse_bool value) (λ v. record c { rules_enabled = v })
    else if eqb full_key (codes "rules.file")
    then stored (record c { rules_file_path = value })
    else unknown

unfoldable pub set_https_mitm : Bytes → Bytes → AppConfig → Outcome
set_https_mitm full_key value c =
    if eqb full_key (codes "https_mitm.enabled")
    then store_parsed (parse_bool value) (λ v. record c { https_mitm_enabled = v })
    else if eqb full_key (codes "https_mitm.ca_cert_path")
    then stored (record c { https_ca_cert_path = value })
    else if eqb full_key (codes "https_mitm.ca_key_path")
    then stored (record c { https_ca_key_path = value })
    else if eqb full_key (codes "https_mitm.ca_subject_name")
    then stored (record c { https_ca_subject_name = value })
    else if eqb full_key (codes "https_mitm.install_to_current_user")
    then store_parsed (parse_bool value) (λ v. record c { https_install_to_current_user = v })
    else if eqb full_key (codes "https_mitm.cert_cache_dir")
    then stored (record c { https_cert_cache_dir = value })
    else if eqb full_key (codes "https_mitm.openssl_bin_path")
    then stored (record c { openssl_bin_path = value })
    else if eqb full_key (codes "https_mitm.plaintext_test_mode")
    then store_parsed (parse_bool value) (λ v. record c { https_plaintext_test_mode = v })
    else unknown

unfoldable pub set_patch : Bytes → Bytes → AppConfig → Outcome
set_patch full_key value c =
    if eqb full_key (codes "patch.add_proxy_header")
    then store_parsed (parse_bool value) (λ v. record c { add_proxy_header = v })
    else if eqb full_key (codes "patch.append_debug_suffix")
    then store_parsed (parse_bool value) (λ v. record c { append_debug_suffix = v })
    else if eqb full_key (codes "patch.enable_text_patch")
    then store_parsed (parse_bool value) (λ v. record c { enable_text_patch = v })
    else if eqb full_key (codes "patch.enable_hex_patch")
    then store_parsed (parse_bool value) (λ v. record c { enable_hex_patch = v })
    else if eqb full_key (codes "patch.outbound_find")
    then stored (record c { outbound_find = value })
    else if eqb full_key (codes "patch.outbound_replace")
    then stored (record c { outbound_replace = value })
    else if eqb full_key (codes "patch.inbound_find")
    then stored (record c { inbound_find = value })
    else if eqb full_key (codes "patch.inbound_replace")
    then stored (record c { inbound_replace = value })
    else if eqb full_key (codes "patch.outbound_find_hex")
    then stored (record c { outbound_find_hex = value })
    else if eqb full_key (codes "patch.outbound_replace_hex")
    then stored (record c { outbound_replace_hex = value })
    else if eqb full_key (codes "patch.inbound_find_hex")
    then stored (record c { inbound_find_hex = value })
    else if eqb full_key (codes "patch.inbound_replace_hex")
    then stored (record c { inbound_replace_hex = value })
    else unknown

abbrev pub or_else : Outcome → Outcome → Outcome
or_else unknown o = o
or_else (stored c) o = stored c
or_else invalid o = invalid

-- The keys are distinct, so the sections' chains may be read one behind another.
unfoldable pub set_key : Bytes → Bytes → AppConfig → Outcome
unfolding set_capture set_tcp set_udp set_runtime set_protocol set_rules set_https_mitm set_patch
set_key full_key value c = or_else (set_capture full_key value c) (
    or_else (set_tcp full_key value c) (
      or_else (set_udp full_key value c) (
        or_else (set_runtime full_key value c) (
          or_else (set_protocol full_key value c) (
            or_else (set_rules full_key value c)
              (or_else (set_https_mitm full_key value c) (set_patch full_key value c)))))))

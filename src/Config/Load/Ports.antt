-- ===== src/Config/Load/Ports.antt =====
-- The numbers of a configuration stay in their types, whatever the file contains.
use network_proxy.Prelude.{
  ltb, if◌then◌else◌, not-ltb→le, Option-cases, OnSome, OnSome-if, Bytes, codes, eqb, stoul, ◌^◌,
  ◌≤◌, ◌<◌, inl, inr, Bool, true, false, Option, none, some, arith,
}
use network_proxy.Common.{trim_copy}
use network_proxy.Config.Types.{AppConfig}
use network_proxy.Config.Parse.{parse_u16, parse_u32}
use network_proxy.Config.Keys.{
  Outcome, unknown, invalid, stored, store_parsed, or_else, set_capture, set_tcp, set_udp,
  set_runtime, set_protocol, set_rules, set_https_mitm, set_patch, set_key,
}

-- What `std::uint16_t` and `std::uint32_t` hold.
abbrev pub IsInRange : AppConfig → Type 0
IsInRange c =
    c.tcp_listen_port ≤ 65535
    × c.tcp_upstream_port ≤ 65535
    × c.udp_listen_port ≤ 65535
    × c.udp_upstream_port ≤ 65535
    × c.max_runtime_seconds < 2 ^ 32

abbrev pub OnStored : Outcome → Type 0
OnStored unknown = Unit
OnStored invalid = Unit
OnStored (stored c) = IsInRange c

OnStored-if : (b : Bool) (x y : Outcome) → OnStored x → OnStored y → OnStored (if b then x else y)
OnStored-if true x y f g = f
OnStored-if false x y f g = g

OnStored-or : (x y : Outcome) → OnStored x → OnStored y → OnStored (or_else x y)
OnStored-or unknown y f g = g
OnStored-or invalid y f g = tt
OnStored-or (stored c) y f g = f

OnStored-parsed :
    {A : Type 0} (P : A → Type 0) (o : Option A) (f : A → AppConfig)
    → OnSome P o
    → ((a : A) → P a → IsInRange (f a))
    → OnStored (store_parsed o f)
OnStored-parsed P none f h k = tt
OnStored-parsed P (some a) f h k = k a h

OnStored-any :
    {A : Type 0} (o : Option A) (f : A → AppConfig)
    → ((a : A) → IsInRange (f a))
    → OnStored (store_parsed o f)
OnStored-any none f k = tt
OnStored-any (some a) f k = k a

parse_u16-bound : (value : Bytes) → OnSome (λ v. v ≤ 65535) (parse_u16 value)
unfolding parse_u16
parse_u16-bound value = elim (Option-cases (stoul (trim_copy value))) [
  | inl e ↦ rw (parse_u16, e) tt
  | inr (n, e) ↦
      rw (parse_u16, e) (OnSome-if _ (ltb 65535 n) _ _ (λ _. tt) (λ b. not-ltb→le 65535 n b))
]

parse_u32-bound : (value : Bytes) → OnSome (λ v. v < 2 ^ 32) (parse_u32 value)
unfolding parse_u32
parse_u32-bound value = elim (Option-cases (stoul (trim_copy value))) [
  | inl e ↦ rw (parse_u32, e) tt
  | inr (n, e) ↦ rw (parse_u32, e) (omega arith)
]

set_capture-IsInRange :
    (full_key value : Bytes) (c : AppConfig) → IsInRange c → OnStored (set_capture full_key value c)
unfolding set_capture
set_capture-IsInRange full_key value c (p, q, r, s, t) =
    OnStored-if (eqb full_key (codes "capture.enabled")) _ _ (OnStored-any _ _ λ v. (p, q, r, s, t))
      (OnStored-if (eqb full_key (codes "capture.use_windivert")) _ _
        (OnStored-any _ _ λ v. (p, q, r, s, t))
        (OnStored-if (eqb full_key (codes "capture.use_wfp")) _ _
          (OnStored-any _ _ λ v. (p, q, r, s, t))
          (OnStored-if (eqb full_key (codes "capture.wfp_filter")) _ _ (p, q, r, s, t)
            (OnStored-if (eqb full_key (codes "capture.wfp_redirect_enabled")) _ _
              (OnStored-any _ _ λ v. (p, q, r, s, t))
              (OnStored-if (eqb full_key (codes "capture.wfp_redirect_allow_startup_fallback")) _ _
                (OnStored-any _ _ λ v. (p, q, r, s, t))
                (OnStored-if (eqb full_key (codes "capture.wfp_redirect_allow_runtime_fallback")) _
                  _ (OnStored-any _ _ λ v. (p, q, r, s, t))
                  (OnStored-if (eqb full_key (codes "capture.wfp_callout_channel")) _ _
                    (p, q, r, s, t)
                    (OnStored-if (eqb full_key (codes "capture.wfp_redirect_filter")) _ _
                      (p, q, r, s, t)
                      (OnStored-if (eqb full_key (codes "capture.windivert_filter")) _ _
                        (p, q, r, s, t) tt)))))))))

set_tcp-IsInRange :
    (full_key value : Bytes) (c : AppConfig) → IsInRange c → OnStored (set_tcp full_key value c)
unfolding set_tcp
set_tcp-IsInRange full_key value c (p, q, r, s, t) =
    OnStored-if (eqb full_key (codes "tcp.enabled")) _ _ (OnStored-any _ _ λ v. (p, q, r, s, t)) (
      OnStored-if (eqb full_key (codes "tcp.listen_host")) _ _ (p, q, r, s, t)
        (OnStored-if (eqb full_key (codes "tcp.listen_port")) _ _
          (OnStored-parsed _ _ _ (parse_u16-bound value) λ v h. (h, q, r, s, t))
          (OnStored-if (eqb full_key (codes "tcp.upstream_host")) _ _ (p, q, r, s, t)
            (OnStored-if (eqb full_key (codes "tcp.upstream_port")) _ _
              (OnStored-parsed _ _ _ (parse_u16-bound value) λ v h. (p, h, r, s, t)) tt))))

set_udp-IsInRange :
    (full_key value : Bytes) (c : AppConfig) → IsInRange c → OnStored (set_udp full_key value c)
unfolding set_udp
set_udp-IsInRange full_key value c (p, q, r, s, t) =
    OnStored-if (eqb full_key (codes "udp.enabled")) _ _ (OnStored-any _ _ λ v. (p, q, r, s, t)) (
      OnStored-if (eqb full_key (codes "udp.listen_host")) _ _ (p, q, r, s, t)
        (OnStored-if (eqb full_key (codes "udp.listen_port")) _ _
          (OnStored-parsed _ _ _ (parse_u16-bound value) λ v h. (p, q, h, s, t))
          (OnStored-if (eqb full_key (codes "udp.upstream_host")) _ _ (p, q, r, s, t)
            (OnStored-if (eqb full_key (codes "udp.upstream_port")) _ _
              (OnStored-parsed _ _ _ (parse_u16-bound value) λ v h. (p, q, r, h, t)) tt))))

set_runtime-IsInRange :
    (full_key value : Bytes) (c : AppConfig) → IsInRange c → OnStored (set_runtime full_key value c)
unfolding set_runtime
set_runtime-IsInRange full_key value c (p, q, r, s, t) =
    OnStored-if (eqb full_key (codes "runtime.log_level")) _ _ (p, q, r, s, t)
      (OnStored-if (eqb full_key (codes "runtime.dry_run")) _ _
        (OnStored-any _ _ λ v. (p, q, r, s, t))
        (OnStored-if (eqb full_key (codes "runtime.max_runtime_seconds")) _ _
          (OnStored-parsed _ _ _ (parse_u32-bound value) λ v h. (p, q, r, s, h)) tt))

set_protocol-IsInRange :
    (full_key value : Bytes) (c : AppConfig)
    → IsInRange c
    → OnStored (set_protocol full_key value c)
unfolding set_protocol
set_protocol-IsInRange full_key value c (p, q, r, s, t) =
    OnStored-if (eqb full_key (codes "protocol.enabled")) _ _
      (OnStored-any _ _ λ v. (p, q, r, s, t))
      (OnStored-if (eqb full_key (codes "protocol.http_enabled")) _ _
        (OnStored-any _ _ λ v. (p, q, r, s, t)) tt)

set_rules-IsInRange :
    (full_key value : Bytes) (c : AppConfig) → IsInRange c → OnStored (set_rules full_key value c)
unfolding set_rules
set_rules-IsInRange full_key value c (p, q, r, s, t) =
    OnStored-if (eqb full_key (codes "rules.enabled")) _ _ (OnStored-any _ _ λ v. (p, q, r, s, t))
      (OnStored-if (eqb full_key (codes "rules.file")) _ _ (p, q, r, s, t) tt)

set_https_mitm-IsInRange :
    (full_key value : Bytes) (c : AppConfig)
    → IsInRange c
    → OnStored (set_https_mitm full_key value c)
unfolding set_https_mitm
set_https_mitm-IsInRange full_key value c (p, q, r, s, t) =
    OnStored-if (eqb full_key (codes "https_mitm.enabled")) _ _
      (OnStored-any _ _ λ v. (p, q, r, s, t))
      (OnStored-if (eqb full_key (codes "https_mitm.ca_cert_path")) _ _ (p, q, r, s, t)
        (OnStored-if (eqb full_key (codes "https_mitm.ca_key_path")) _ _ (p, q, r, s, t)
          (OnStored-if (eqb full_key (codes "https_mitm.ca_subject_name")) _ _ (p, q, r, s, t)
            (OnStored-if (eqb full_key (codes "https_mitm.install_to_current_user")) _ _
              (OnStored-any _ _ λ v. (p, q, r, s, t))
              (OnStored-if (eqb full_key (codes "https_mitm.cert_cache_dir")) _ _ (p, q, r, s, t)
                (OnStored-if (eqb full_key (codes "https_mitm.openssl_bin_path")) _ _
                  (p, q, r, s, t)
                  (OnStored-if (eqb full_key (codes "https_mitm.plaintext_test_mode")) _ _
                    (OnStored-any _ _ λ v. (p, q, r, s, t)) tt)))))))

set_patch-IsInRange :
    (full_key value : Bytes) (c : AppConfig) → IsInRange c → OnStored (set_patch full_key value c)
unfolding set_patch
set_patch-IsInRange full_key value c (p, q, r, s, t) =
    OnStored-if (eqb full_key (codes "patch.add_proxy_header")) _ _
      (OnStored-any _ _ λ v. (p, q, r, s, t))
      (OnStored-if (eqb full_key (codes "patch.append_debug_suffix")) _ _
        (OnStored-any _ _ λ v. (p, q, r, s, t))
        (OnStored-if (eqb full_key (codes "patch.enable_text_patch")) _ _
          (OnStored-any _ _ λ v. (p, q, r, s, t))
          (OnStored-if (eqb full_key (codes "patch.enable_hex_patch")) _ _
            (OnStored-any _ _ λ v. (p, q, r, s, t))
            (OnStored-if (eqb full_key (codes "patch.outbound_find")) _ _ (p, q, r, s, t)
              (OnStored-if (eqb full_key (codes "patch.outbound_replace")) _ _ (p, q, r, s, t)
                (OnStored-if (eqb full_key (codes "patch.inbound_find")) _ _ (p, q, r, s, t)
                  (OnStored-if (eqb full_key (codes "patch.inbound_replace")) _ _ (p, q, r, s, t)
                    (OnStored-if (eqb full_key (codes "patch.outbound_find_hex")) _ _
                      (p, q, r, s, t)
                      (OnStored-if (eqb full_key (codes "patch.outbound_replace_hex")) _ _
                        (p, q, r, s, t)
                        (OnStored-if (eqb full_key (codes "patch.inbound_find_hex")) _ _
                          (p, q, r, s, t)
                          (OnStored-if (eqb full_key (codes "patch.inbound_replace_hex")) _ _
                            (p, q, r, s, t) tt)))))))))))

pub set_key-IsInRange :
    (full_key value : Bytes) (c : AppConfig) → IsInRange c → OnStored (set_key full_key value c)
unfolding set_key
set_key-IsInRange k v c h = OnStored-or _ _ (set_capture-IsInRange k v c h) (
    OnStored-or _ _ (set_tcp-IsInRange k v c h) (
      OnStored-or _ _ (set_udp-IsInRange k v c h) (
        OnStored-or _ _ (set_runtime-IsInRange k v c h) (
          OnStored-or _ _ (set_protocol-IsInRange k v c h) (
            OnStored-or _ _ (set_rules-IsInRange k v c h) (
              OnStored-or _ _ (set_https_mitm-IsInRange k v c h) (set_patch-IsInRange k v c h)))))))

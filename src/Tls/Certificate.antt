-- ===== src/Tls/Certificate.antt =====
-- src/tls/certificate_manager.cpp, and the two functions of src/tls/https_mitm_proxy.cpp that call it.
-- The system is the files that there are and the commands that were run. `std::system`, the joining
-- of paths and the failures of the file system are parameters.

pub mod Leaf
pub mod Commands
use network_proxy.Prelude.{
  ◌==◌, if◌then◌else◌, is_empty, Bytes, codes, eqb, ℕ, Bool, false, not, ◌&&◌, ◌||◌, Option, none,
  some, List, [], ◌∷◌, ◌++◌, map,
}
use network_proxy.Config.Types.{AppConfig}

-- The files, by path, with their text.
abbrev pub Files : Type 0
Files = List (Bytes × Bytes)

unfoldable pub exists : Bytes → Files → Bool
exists path [] = false
exists path ((p, text) ∷ files) = eqb p path || exists path files

unfoldable pub remove_file : Bytes → Files → Files
remove_file path [] = []
remove_file path ((p, text) ∷ files) =
    let rest = remove_file path files in if eqb p path then rest else (p, text) ∷ rest

pub record System : Type 0 where
  pub files : Files
  pub commands : List Bytes

-- The error messages.
pub data CertificateError : Type 0 where
  cert_not_found key_not_found subject_empty host_empty : CertificateError
  no_cache_directory no_ext_file command_failed not_produced : CertificateError

-- `if (!…) { return false; }`
abbrev pub and_then :
    System × Option CertificateError
    → (System → System × Option CertificateError)
    → System × Option CertificateError
and_then (s, some e) k = (s, some e)
and_then (s, none) k = k s

-- `none` is the result `true`.
unfoldable pub validate_ca_files : Bytes → Bytes → Files → Option CertificateError
validate_ca_files cert_path key_path files =
    if not (exists cert_path files)
    then some cert_not_found
    else if not (exists key_path files)
    then some key_not_found
    else none

abbrev pub quoted : Bytes → Bytes
quoted text = codes "\"" ++ (text ++ codes "\"")

-- What the loop over `sanitized_host` puts for a character.
unfoldable pub sanitize : ℕ → ℕ
sanitize c =
    if c == b':'
      || (c == b'*' || (c == b'?' || (c == b'"' || (c == b'<' || (c == b'>' || c == b'|')))))
    then b'_'
    else c

-- The text of the `.ext` file.
abbrev pub ext_text : Bytes → Bytes
ext_text host_name =
    codes "authorityKeyIdentifier=keyid,issuer\n"
    ++ (codes "basicConstraints=CA:FALSE\n"
        ++ (codes "keyUsage=digitalSignature,keyEncipherment\n"
            ++ (codes "extendedKeyUsage=serverAuth\n"
                ++ (codes "subjectAltName=DNS:" ++ (host_name ++ codes "\n")))))

abbrev pub create_csr_command : Bytes → Bytes → Bytes → Bytes → Bytes
create_csr_command openssl_bin_path leaf_key_path host_name csr_path =
    quoted openssl_bin_path
    ++ (codes " req -new -newkey rsa:2048 -nodes -keyout "
        ++ (quoted leaf_key_path
            ++ (codes " -subj \"/CN="
                ++ (host_name ++ (codes "\"" ++ (codes " -out " ++ quoted csr_path))))))

abbrev pub sign_command : Bytes → Bytes → Bytes → Bytes → Bytes → Bytes → Bytes
sign_command openssl_bin_path csr_path ca_cert_path ca_key_path leaf_cert_path ext_path =
    quoted openssl_bin_path
    ++ (codes " x509 -req -in "
        ++ (quoted csr_path
            ++ (codes " -CA "
                ++ (quoted ca_cert_path
                    ++ (codes " -CAkey "
                        ++ (quoted ca_key_path
                            ++ (codes " -CAcreateserial -out "
                                ++ (quoted leaf_cert_path
                                    ++ (codes " -days 365 -sha256 -extfile "
                                        ++ quoted ext_path)))))))))

-- `cache_dir / (sanitized_host + extension)`, where `join` is `operator/` on paths.
abbrev pub leaf_path : (Bytes → Bytes → Bytes) → Bytes → Bytes → Bytes → Bytes
leaf_path join cache_dir host_name extension = join cache_dir (map sanitize host_name ++ extension)

-- Behind the second command: the temporary files go, and the leaf's files must be there.
unfoldable pub finish : Bytes → Bytes → Bytes → Bytes → System → System × Option CertificateError
finish csr_path ext_path leaf_cert_path leaf_key_path s =
    let files = remove_file ext_path (remove_file csr_path s.files) in
    (
      record s { files = files },
      if not (exists leaf_cert_path files) || not (exists leaf_key_path files)
          then some not_produced
          else none,
    )

-- `system` is what a command does: whether its exit code is 0, and the files behind it.
module _ (system : Bytes → Files → Bool × Files) where
  unfoldable pub execute_command : Bytes → System → System × Option CertificateError
  execute_command command s =
      let (ok, files) = system command s.files in
      (
        record { files = files; commands = s.commands ++ command ∷ [] },
        if not ok then some command_failed else none,
      )

  unfoldable pub install_root_ca : Bytes → Bool → System → System × Option CertificateError
  install_root_ca cert_path install_to_current_user s =
      if not (exists cert_path s.files)
      then (s, some cert_not_found)
      else execute_command
          (codes "certutil "
            ++ ((if install_to_current_user then codes "-user " else [])
                ++ (codes "-f -addstore Root " ++ quoted cert_path)))
          s

  unfoldable pub uninstall_root_ca : Bytes → Bool → System → System × Option CertificateError
  uninstall_root_ca subject_name install_to_current_user s =
      if is_empty subject_name
      then (s, some subject_empty)
      else execute_command
          (codes "certutil "
            ++ ((if install_to_current_user then codes "-user " else [])
                ++ (codes "-delstore Root " ++ quoted subject_name)))
          s

  -- `makes_directory` and `opens` say whether the directory could be
  -- made and the file opened.
  module _ (join : Bytes → Bytes → Bytes) (makes_directory opens : Bytes → Bool) where
    -- From the writing of the `.ext` file on.
    unfoldable pub make_leaf :
        Bytes
        → Bytes
        → Bytes
        → Bytes
        → Bytes
        → Bytes
        → Bytes
        → Bytes
        → System
        → System × Option CertificateError
    unfolding execute_command finish
    make_leaf host_name ca_cert_path ca_key_path openssl_bin_path csr_path ext_path leaf_cert_path
          leaf_key_path s =
        if not (opens ext_path)
        then (s, some no_ext_file)
        else let s₁ : System = record s {
          files = (ext_path, ext_text host_name) ∷ remove_file ext_path s.files;
        } in
          and_then
            (execute_command (create_csr_command openssl_bin_path leaf_key_path host_name csr_path)
              s₁)
            λ s₂.
              and_then
                (execute_command
                  (sign_command openssl_bin_path csr_path ca_cert_path ca_key_path leaf_cert_path
                    ext_path)
                  s₂)
                λ s₃. finish csr_path ext_path leaf_cert_path leaf_key_path s₃

    unfoldable pub generate_leaf_certificate :
        Bytes → Bytes → Bytes → Bytes → Bytes → System → System × Option CertificateError
    unfolding validate_ca_files make_leaf
    generate_leaf_certificate host_name ca_cert_path ca_key_path cache_dir openssl_bin_path s =
        let leaf_cert_path = leaf_path join cache_dir host_name (codes ".crt") in
        let leaf_key_path = leaf_path join cache_dir host_name (codes ".key") in
        if is_empty host_name
        then (s, some host_empty)
        else elim (validate_ca_files ca_cert_path ca_key_path s.files) [
          | some e ↦ (s, some e)
          | none ↦
              if not (makes_directory cache_dir)
              then (s, some no_cache_directory)
              else if exists leaf_cert_path s.files && exists leaf_key_path s.files
              then (s, none)
              else make_leaf host_name ca_cert_path ca_key_path openssl_bin_path
                  (leaf_path join cache_dir host_name (codes ".csr"))
                  (leaf_path join cache_dir host_name (codes ".ext")) leaf_cert_path leaf_key_path s
        ]

    -- Of `HttpsMitmProxy`. The paths that it stores are those of `leaf_path`.
    unfoldable pub ensure_leaf_certificate_for_host :
        AppConfig → Bytes → System → System × Option CertificateError
    ensure_leaf_certificate_for_host config host_name s =
        generate_leaf_certificate host_name config.https_ca_cert_path config.https_ca_key_path
          config.https_cert_cache_dir config.openssl_bin_path s

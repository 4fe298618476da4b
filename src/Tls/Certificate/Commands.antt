-- ===== src/Tls/Certificate/Commands.antt =====
-- The commands that the making of a certificate runs.
use network_proxy.Prelude.{
  Bool-cases, is_empty, Bytes, codes, ◌≡◌, refl, ap, ◌∙◌, ◌≢◌, inl, inr, Bool, true, false, ◌&&◌,
  Option, none, List, [], ◌∷◌, ◌++◌, append_assoc,
}
use network_proxy.Tls.Certificate.{
  and_then, Files, exists, remove_file, System, CertificateError, validate_ca_files, quoted,
  ext_text, create_csr_command, sign_command, execute_command, finish, make_leaf, leaf_path,
  generate_leaf_certificate,
}

-- What a chain of commands adds to those that were run.
Adds : System → Bytes → System × Option CertificateError → Type 0
Adds s command r = (more : List Bytes) × (r.0.commands ≡ s.commands ++ (command ∷ more))

module _ (system : Bytes → Files → Bool × Files) where
  sign-Adds :
      (s s₂ : System) (command sign csr ext cert key : Bytes)
      → s₂.commands ≡ s.commands ++ (command ∷ [])
      → Adds s command (and_then (execute_command system sign s₂) λ s₃. finish csr ext cert key s₃)
  unfolding Adds execute_command finish
  sign-Adds s s₂ command sign csr ext cert key h = (
    sign ∷ [],
    elim (Bool-cases (system sign s₂.files).0) [
      | inl b ↦ rw (execute_command, b) (rw h (append_assoc s.commands (command ∷ []) (sign ∷ [])))
      | inr b ↦ rw (execute_command, b) (rw h (append_assoc s.commands (command ∷ []) (sign ∷ [])))
    ],
  )

  commands-Adds :
      (s : System) (command : Bytes) (k : System → System × Option CertificateError)
      → ((s₂ : System) → s₂.commands ≡ s.commands ++ (command ∷ []) → Adds s command (k s₂))
      → Adds s command (and_then (execute_command system command s) k)
  unfolding Adds execute_command
  commands-Adds s command k h = elim (Bool-cases (system command s.files).0) [
    | inl b ↦ rw (execute_command, b) (h _ refl)
    | inr b ↦ ([], rw (execute_command, b))
  ]

is_empty-false : (text : Bytes) → text ≢ [] → is_empty text ≡ false
is_empty-false [] n = absurd (n refl)
is_empty-false (c ∷ text) n = refl

module _ (system : Bytes → Files → Bool × Files) (join : Bytes → Bytes → Bytes)
    (makes_directory opens : Bytes → Bool) where
  make_leaf-Adds :
      (host ca_cert ca_key openssl csr ext cert key : Bytes) (s : System)
      → opens ext ≡ true
      → Adds s (create_csr_command openssl key host csr) (
          make_leaf system join makes_directory opens host ca_cert ca_key openssl csr ext cert key
            s)
  unfolding make_leaf Adds
  make_leaf-Adds host ca_cert ca_key openssl csr ext cert key s o =
      let s₁ : System = record s { files = (ext, ext_text host) ∷ remove_file ext s.files } in
      rw (make_leaf, o)
        (commands-Adds system s₁ (create_csr_command openssl key host csr) _ λ s₂ h.
          sign-Adds system s₁ s₂ _ (sign_command openssl csr ca_cert ca_key cert ext) csr ext cert
            key h)

-- Where the certificate of a host is not there yet, and nothing is in the way of making it, the first
-- command that is run has the name of the host as it is, whatever characters it has, between the
-- quotation marks of its argument: `sanitize` is applied to the paths alone.
pub generate_leaf-runs :
    (system : Bytes → Files → Bool × Files) (join : Bytes → Bytes → Bytes)
    (makes_directory opens : Bytes → Bool) (host ca_cert ca_key cache_dir openssl : Bytes)
    (s : System)
    → host ≢ []
    → validate_ca_files ca_cert ca_key s.files ≡ none
    → makes_directory cache_dir ≡ true
    → (exists (leaf_path join cache_dir host (codes ".crt")) s.files
        && exists (leaf_path join cache_dir host (codes ".key")) s.files)
      ≡ false
    → opens (leaf_path join cache_dir host (codes ".ext")) ≡ true
    → (before : Bytes) × (after : Bytes) × (more : List Bytes) × ((generate_leaf_certificate system
          join makes_directory opens host ca_cert ca_key cache_dir openssl s).0.commands
        ≡ s.commands ++ ((before ++ (codes "\"/CN=" ++ (host ++ (codes "\"" ++ after)))) ∷ more))
unfolding generate_leaf_certificate Adds
generate_leaf-runs system join makes_directory opens host ca_cert ca_key cache_dir openssl s n v d b
      o =
    let cert = leaf_path join cache_dir host (codes ".crt") in
    let key = leaf_path join cache_dir host (codes ".key") in
    let csr = leaf_path join cache_dir host (codes ".csr") in
    let ext = leaf_path join cache_dir host (codes ".ext") in
    let (more, e) =
      make_leaf-Adds system join makes_directory opens host ca_cert ca_key openssl csr ext cert key
        s o in
    (
      quoted openssl
          ++ (codes " req -new -newkey rsa:2048 -nodes -keyout "
              ++ (quoted key ++ codes " -subj ")),
      codes " -out " ++ quoted csr,
      more,
      rw (generate_leaf_certificate, is_empty-false host n, v, d, b)
          (e ∙ ap (λ (c : Bytes). s.commands ++ (c ∷ more)) (simp append_assoc)),
    )

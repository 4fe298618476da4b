-- ===== src/Tls/Certificate/Leaf.antt =====
-- What the making of a certificate leaves behind, and what it runs.
use network_proxy.Prelude.{
  Bool-cases, Option-cases, if_cases, &&-true, is_empty, Bytes, codes, ◌≡◌, refl, sym, ap, ◌∙◌, ◌⊎◌,
  inl, inr, Bool, true, false, not, ◌&&◌, Option, none, some, ◌∷◌, arith,
}
use network_proxy.Tls.Certificate.{
  and_then, Files, exists, remove_file, System, CertificateError, host_empty, no_cache_directory,
  validate_ca_files, ext_text, create_csr_command, sign_command, execute_command, finish, make_leaf,
  leaf_path, generate_leaf_certificate,
}

-- The outcome of an operation: where it has no error, both files are there.
BothExist : Bytes → Bytes → System × Option CertificateError → Type 0
BothExist cert key (s, error) =
    error ≡ none → (exists cert s.files ≡ true) × (exists key s.files ≡ true)

BothExist-some :
    (cert key : Bytes) (s : System) (e : CertificateError) → BothExist cert key (s, some e)
unfolding BothExist
BothExist-some cert key s e h = absurd (cc)

there :
    (cert key : Bytes) (s : System)
    → (exists cert s.files && exists key s.files) ≡ true
    → BothExist cert key (s, none)
unfolding BothExist
there cert key s b h = &&-true (exists cert s.files) (exists key s.files) b

BothExist-then :
    (cert key : Bytes) (r : System × Option CertificateError)
    (k : System → System × Option CertificateError)
    → ((s : System) → BothExist cert key (k s))
    → BothExist cert key (and_then r k)
BothExist-then cert key (s, some e) k h = BothExist-some cert key s e
BothExist-then cert key (s, none) k h = h s

finish-BothExist :
    (csr ext cert key : Bytes) (s : System) → BothExist cert key (finish csr ext cert key s)
unfolding finish BothExist
finish-BothExist csr ext cert key s h = ground arith

module _ (system : Bytes → Files → Bool × Files) (join : Bytes → Bytes → Bytes)
    (makes_directory opens : Bytes → Bool) where
  make_leaf-BothExist :
      (host ca_cert ca_key openssl csr ext cert key : Bytes) (s : System)
      → BothExist cert key (
          make_leaf system join makes_directory opens host ca_cert ca_key openssl csr ext cert key
            s)
  unfolding make_leaf
  make_leaf-BothExist host ca_cert ca_key openssl csr ext cert key s =
      if_cases (BothExist cert key) (not (opens ext)) _ _ (λ _. BothExist-some cert key _ _)
        λ _.
          let s₁ : System = record s { files = (ext, ext_text host) ∷ remove_file ext s.files } in
          BothExist-then cert key
            (execute_command system (create_csr_command openssl key host csr) s₁)
            (λ s₂.
              and_then
                (execute_command system (sign_command openssl csr ca_cert ca_key cert ext) s₂)
                (λ s₃. finish csr ext cert key s₃))
            λ s₂.
              BothExist-then cert key
                (execute_command system (sign_command openssl csr ca_cert ca_key cert ext) s₂)
                (λ s₃. finish csr ext cert key s₃) λ s₃. finish-BothExist csr ext cert key s₃

  generate-BothExist :
      (host ca_cert ca_key cache_dir openssl : Bytes) (s : System)
      → BothExist
          (leaf_path join cache_dir host (codes ".crt"))
          (leaf_path join cache_dir host (codes ".key"))
          (generate_leaf_certificate system join makes_directory opens host ca_cert ca_key cache_dir
            openssl s)
  unfolding generate_leaf_certificate
  generate-BothExist host ca_cert ca_key cache_dir openssl s =
      let cert = leaf_path join cache_dir host (codes ".crt") in
      let key = leaf_path join cache_dir host (codes ".key") in
      if_cases (BothExist cert key) (is_empty host) _ _ (λ _. BothExist-some cert key s host_empty)
        λ _. elim (Option-cases (validate_ca_files ca_cert ca_key s.files)) [
          | inr (e, f) ↦ rw f (BothExist-some cert key s e)
          | inl f ↦ rw f (
              if_cases (BothExist cert key) (not (makes_directory cache_dir)) _ _
                (λ _. BothExist-some cert key s no_cache_directory)
                λ _.
                  if_cases (BothExist cert key) (exists cert s.files && exists key s.files) _ _
                    (λ b. there cert key s b)
                    λ _. make_leaf-BothExist host ca_cert ca_key openssl _ _ cert key s)
        ]

module _ (system : Bytes → Files → Bool × Files) (join : Bytes → Bytes → Bytes)
    (makes_directory opens : Bytes → Bool) (host ca_cert ca_key cache_dir openssl : Bytes)
    (s : System) where
  generate-cached :
      (exists (leaf_path join cache_dir host (codes ".crt")) s.files
          && exists (leaf_path join cache_dir host (codes ".key")) s.files)
        ≡ true
      → (generate_leaf_certificate system join makes_directory opens host ca_cert ca_key cache_dir
          openssl s).0
        ≡ s
  unfolding generate_leaf_certificate
  generate-cached b = elim (Bool-cases (is_empty host)) [
    | inl e ↦ rw (generate_leaf_certificate, e)
    | inr e ↦ elim (Option-cases (validate_ca_files ca_cert ca_key s.files)) [
      | inr (x, f) ↦ rw (generate_leaf_certificate, e, f)
      | inl f ↦ elim (Bool-cases (makes_directory cache_dir)) [
        | inl d ↦ rw (generate_leaf_certificate, e, f, d, b)
        | inr d ↦ rw (generate_leaf_certificate, e, f, d)
      ]
    ]
  ]

-- Where the making of a certificate reports no error, whatever the commands did, its certificate and
-- its key are there; and where both were there before, nothing is run and nothing is changed.
pub generate_leaf-exists :
    (system : Bytes → Files → Bool × Files) (join : Bytes → Bytes → Bytes)
    (makes_directory opens : Bytes → Bool) (host ca_cert ca_key cache_dir openssl : Bytes)
    (s s' : System)
    → generate_leaf_certificate system join makes_directory opens host ca_cert ca_key cache_dir
        openssl s
      ≡ (s', none)
    → (exists (leaf_path join cache_dir host (codes ".crt")) s'.files ≡ true)
      × (exists (leaf_path join cache_dir host (codes ".key")) s'.files ≡ true)
      × (((exists (leaf_path join cache_dir host (codes ".crt")) s.files
              && exists (leaf_path join cache_dir host (codes ".key")) s.files)
            ≡ false)
          ⊎ (s' ≡ s))
unfolding BothExist generate_leaf_certificate
generate_leaf-exists system join makes_directory opens host ca_cert ca_key cache_dir openssl s s'
      h =
    let (c, k) =
      rw h at
        (generate-BothExist system join makes_directory opens host ca_cert ca_key cache_dir openssl
          s)
        refl in
    (
      c,
      k,
      elim (Bool-cases (
          exists (leaf_path join cache_dir host (codes ".crt")) s.files
          && exists (leaf_path join cache_dir host (codes ".key")) s.files)) [
            | inl b ↦
                let e =
                  generate-cached system join makes_directory opens host ca_cert ca_key cache_dir
                    openssl s b in
                inr (sym (ap (λ (r : System × Option CertificateError). r.0) h) ∙ e)
            | inr b ↦ inl b
          ],
    )

-- ===== src/Server/Tls/SelfSigned.antt =====
-- internal/master/tls.go: the certificate that a server makes for itself. Keys, certificates and
-- their encodings are numbers.
use open_ctrl.Base.{ℕ, ◌^◌, String, Option, ◌>>=◌, List, [], ◌∷◌}

-- The key usages, and the extended ones.
pub data KeyUsage : Type 0 where
  key_encipherment digital_signature server_auth : KeyUsage

-- x509.Certificate, as far as it is set.
pub record Template : Type 0 where
  pub serial_number : ℕ
  pub not_before : ℕ
  pub not_after : ℕ
  pub key_usage : List KeyUsage
  pub ext_key_usage : List KeyUsage

-- The answers: ecdsa.GenerateKey, rand.Int below a limit, the clock at its two readings, a year
-- added to a date, x509.CreateCertificate for a template and a key, x509.MarshalPKCS8PrivateKey,
-- pem.EncodeToMemory for a type of block, and tls.X509KeyPair.
pub record CertEnv : Type 0 where
  pub generate_key : Option ℕ
  pub random_below : ℕ → Option ℕ
  pub now : ℕ
  pub later : ℕ
  pub add_year : ℕ → ℕ
  pub create_certificate : Template → ℕ → Option ℕ
  pub marshal_key : ℕ → Option ℕ
  pub encode_pem : String → ℕ → ℕ
  pub key_pair : ℕ → ℕ → Option ℕ

-- The literal `template`.
abbrev pub template_of : CertEnv → ℕ → Template
template_of env serial = record {
  serial_number = serial;
  not_before = env.now;
  not_after = env.add_year env.later;
  key_usage = key_encipherment ∷ digital_signature ∷ [];
  ext_key_usage = server_auth ∷ [];
}

-- newTLSConfig, for its certificate; no value is any of its errors.
unfoldable pub new_tls_config : CertEnv → Option ℕ
new_tls_config env = do
  private ← env.generate_key
  serial ← env.random_below (2 ^ 128)
  crt ← env.create_certificate (template_of env serial) private
  key ← env.marshal_key private
  env.key_pair (env.encode_pem "CERTIFICATE" crt) (env.encode_pem "PRIVATE KEY" key)

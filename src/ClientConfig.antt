-- ===== src/ClientConfig.antt =====
-- cmd/jiejie-masque/mihomo_config.go: the configuration of a client, printed for its private key. The
-- flags' parser, X.509, PEM, YAML and the files are parameters.
pub mod Keys
pub mod Entries
pub mod Selection
pub mod Tests
use jiejie_masque_unified.Base.{
  ℕ, ◌==◌, nat_eq, string_eq, ltb, not, ◌||◌, Bool, true, false, Option, none, some, List, [], ◌∷◌,
  String, if◌then◌else◌,
}
use jiejie_masque_unified.Base.Fallible.{Result, ok, err, ◌>>=◌, need}
use jiejie_masque_unified.Net.{Prefix, prefix_is_valid}
use jiejie_masque_unified.Auth.{Bytes, Crypto, PublicKey, ecdsa, other_key}
use jiejie_masque_unified.Config.{
  Config, ConfigError, ResolvedClient, Library, TunnelAddresses, server_addresses, resolved_clients,
}
use jiejie_masque_unified.Config.Load.{Reader, load}
use jiejie_masque_unified.Keygen.{Curve, PrivateKey}

pub data MihomoError : Type 0 where
  bad_flags missing_options : MihomoError
  config_failed : ConfigError → MihomoError
  bad_base64 bad_der not_ecdsa not_p256 key_not_encoded no_client : MihomoError
  cert_unreadable bad_pem bad_certificate cert_not_p256 cert_key_not_encoded : MihomoError
  not_marshalled not_written : MihomoError

-- What x509.ParsePKCS8PrivateKey gives.
pub data AnyKey : Type 0 where
  ec_key : PrivateKey → AnyKey
  other_private_key : AnyKey

-- crypto/x509 on keys, and the name and the size of elliptic.P256().
pub record KeyFormats : Type 0 where
  pub parse_ec_private_key : Bytes → Option PrivateKey
  pub parse_pkcs8_private_key : Bytes → Option AnyKey
  pub marshal_ec_private_key : PrivateKey → Option Bytes
  pub marshal_pkix_public_key : PublicKey → Option Bytes
  pub p256_name : String
  pub p256_bit_size : ℕ

abbrev pub from_config : {A : Type 0} → Result ConfigError A → Result MihomoError A
from_config (ok x) = ok x
from_config (err e) = err (config_failed e)

module _ (k : KeyFormats) where
  abbrev pub p256_params : Option (String × ℕ) → Bool
  p256_params none = false
  p256_params (some (name, bit_size)) =
      not (not (name == k.p256_name) || not (bit_size == k.p256_bit_size))

  -- The curve may be nil, as its parameters may.
  abbrev pub p256_curve : Option Curve → Bool
  p256_curve none = false
  p256_curve (some c) = p256_params c.params

  unfoldable pub check_curve : PrivateKey → Result MihomoError PrivateKey
  check_curve key = if not (p256_curve key.curve) then err not_p256 else ok key

  unfoldable pub parse_client_private_key_der : Bytes → Result MihomoError PrivateKey
  parse_client_private_key_der der = elim (k.parse_ec_private_key der) [
    | some key ↦ check_curve key
    | none ↦ elim (k.parse_pkcs8_private_key der) [
      | none ↦ err bad_der
      | some (ec_key key) ↦ check_curve key
      | some other_private_key ↦ err not_ecdsa
    ]
  ]

  unfoldable pub parse_client_private_key : Crypto → String → Result MihomoError PrivateKey
  parse_client_private_key c encoded = do
    der ← need (c.decode_string encoded) bad_base64
    parse_client_private_key_der der

abbrev pub is_p256_key : PrivateKey → Bool
is_p256_key key = elim key.curve [ none ↦ false | some c ↦ c.is_p256 ]

-- The key is never nil where the program calls this.
unfoldable pub encode_client_auth_public_key : Crypto → PrivateKey → Result MihomoError String
encode_client_auth_public_key c key =
    if not (is_p256_key key) then err not_p256 else ok (c.encode_to_string (c.marshal key.x key.y))

unfoldable pub client_public_key_from_private_key :
    KeyFormats → Crypto → String → Result MihomoError String
client_public_key_from_private_key k c encoded = do
  key ← parse_client_private_key k c encoded
  encode_client_auth_public_key c key

unfoldable pub canonical_client_private_key :
    KeyFormats → Crypto → PrivateKey → Result MihomoError String
canonical_client_private_key k c key = do
  der ← need (k.marshal_ec_private_key key) key_not_encoded
  ok (c.encode_to_string der)

abbrev pub is_p256 : PublicKey → Bool
is_p256 (ecdsa p256 x y) = p256
is_p256 other_key = false

unfoldable pub encode_server_endpoint_public_key :
    KeyFormats → Crypto → PublicKey → Result MihomoError String
encode_server_endpoint_public_key k c pub_key =
    if not (is_p256 pub_key) then err cert_not_p256 else (do
      der ← need (k.marshal_pkix_public_key pub_key) cert_key_not_encoded
      ok (c.encode_to_string der))

unfoldable pub select_mihomo_client :
    List ResolvedClient → String → Result MihomoError ResolvedClient
select_mihomo_client [] public_key = err no_client
select_mihomo_client (client ∷ clients) public_key =
    if client.public_key == public_key then ok client else select_mihomo_client clients public_key

-- The first PEM block, with its type; none is no block.
pub record Block : Type 0 where
  pub block_type : String
  pub bytes : Bytes

unfoldable pub first_certificate : Option Block → Result MihomoError Bytes
first_certificate none = err bad_pem
first_certificate (some block) =
    if not (block.block_type == "CERTIFICATE") then err bad_pem else ok block.bytes

unfoldable pub decode_first_certificate : (Bytes → Option Block) → Bytes → Result MihomoError Bytes
decode_first_certificate pem_decode b = first_certificate (pem_decode b)

-- The address before the slash of a prefix, as bytes.
unfoldable pub parse_tunnel_address : Bytes → Option Bytes
parse_tunnel_address [] = none
parse_tunnel_address (b ∷ rest) =
    let more = parse_tunnel_address rest in
    if b == 0x2f then some [] else elim more [ none ↦ none | some before ↦ some (b ∷ before) ]

-- A Go int.
pub data ℤ : Type 0 where
  pos : ℕ → ℤ
  negsuc : ℕ → ℤ

pub record Options : Type 0 where
  pub config : String
  pub server : String
  pub port : ℤ
  pub private_key : String
  pub name : String
  pub sni : String

abbrev pub default_options : Options
default_options = record {
  config = "";
  server = "";
  port = pos 443;
  private_key = "";
  name = "MASQUE";
  sni = "";
}

abbrev pub port_is_valid : ℤ → Bool
port_is_valid (pos n) = not (ltb n 1 || ltb 65535 n)
port_is_valid (negsuc n) = false

-- The map that becomes YAML; the entries that may be missing are options.
pub record Node : Type 0 where
  pub name : String
  pub node_type : String
  pub server : String
  pub port : ℤ
  pub private_key : String
  pub public_key : String
  pub mtu : ℕ
  pub udp : Bool
  pub ip_stack_mode : String
  pub ip_stack_congestion_controller : String
  pub congestion_controller : String
  pub bbr_profile : String
  pub ip : Option String
  pub ipv6 : Option String
  pub sni : Option String

-- The rest of the environment: the flags' parser on the defaults, reading the certificate, PEM, X.509,
-- Prefix.String, YAML, and whether the output takes the text.
pub record Tools : Type 0 where
  pub parse_flags : Options → List String → Option Options
  pub read_file : String → Option Bytes
  pub pem_decode : Bytes → Option Block
  pub parse_certificate : Bytes → Option PublicKey
  pub prefix_string : Prefix → String
  pub marshal_yaml : Node → Option Bytes
  pub write_out : Bytes → Bool

unfoldable pub check_options : Options → Result MihomoError (Unit {0})
check_options o =
    if o.config == "" || o.server == "" || o.private_key == "" || not (port_is_valid o.port)
    then err missing_options
    else ok tt

abbrev pub prefix_entry : Tools → Prefix → Option String
prefix_entry t p = if prefix_is_valid p then some (t.prefix_string p) else none

-- tunnelMTU is 1280.
unfoldable pub node_of : Tools → Options → String → String → ResolvedClient → Node
node_of t o private_key public_key client = record {
  name = o.name;
  node_type = "masque";
  server = o.server;
  port = o.port;
  private_key = private_key;
  public_key = public_key;
  mtu = 1280;
  udp = true;
  ip_stack_mode = "mips";
  ip_stack_congestion_controller = "bbr3";
  congestion_controller = "bbr";
  bbr_profile = "standard";
  ip = prefix_entry t client.tunnel_ipv4;
  ipv6 = prefix_entry t client.tunnel_ipv6;
  sni = if not (o.sni == "") then some o.sni else none;
}

module _ (l : Library) (r : Reader) (k : KeyFormats) (t : Tools) where
  -- The server's public key, from its certificate.
  unfoldable pub server_public_key : String → Result MihomoError String
  server_public_key path = do
    cert_pem ← need (t.read_file path) cert_unreadable
    cert_der ← decode_first_certificate t.pem_decode cert_pem
    pub_key ← need (t.parse_certificate cert_der) bad_certificate
    if not (is_p256 pub_key)
        then err cert_not_p256
        else encode_server_endpoint_public_key k l.crypto pub_key

  -- The node for the options.
  unfoldable pub mihomo_node : Options → Result MihomoError Node
  mihomo_node o = do
    checked ← check_options o
    c ← from_config (load l r o.config)
    clients ← from_config (resolved_clients l c)
    client_private_key ← parse_client_private_key k l.crypto o.private_key
    client_public_key ← encode_client_auth_public_key l.crypto client_private_key
    canonical_private_key ← canonical_client_private_key k l.crypto client_private_key
    client ← select_mihomo_client clients client_public_key
    public_key ← server_public_key c.tls.cert
    addresses ← from_config (server_addresses l c)
    ok (node_of t o canonical_private_key public_key client)

  -- The bytes written, where all succeeds.
  unfoldable pub mihomo_config_to : List String → Result MihomoError Bytes
  mihomo_config_to args = do
    o ← need (t.parse_flags default_options args) bad_flags
    node ← mihomo_node o
    b ← need (t.marshal_yaml node) not_marshalled
    if t.write_out b then ok b else err not_written

-- ===== src/ClientConfig/Selection.antt =====
-- cmd/jiejie-masque/mihomo_config.go with main.go: the client of a printed node is the one that the server
-- takes the bearer of the private key for.
use jiejie_masque_unified.Base.{
  ℕ, ◌≤◌, ◌≡◌, refl, ap, sym, subst, ◌∙◌, string_eq, true, some, String, List, [], ◌∷◌, In, arith,
}
use jiejie_masque_unified.Base.Fallible.{Result, ok, err, need-eq-ok, >>=-eq-ok, ok-injective}
use jiejie_masque_unified.Auth.{
  Bytes, Crypto, Certificate, ecdsa, elliptic_marshal, public_key_bytes,
}
use jiejie_masque_unified.Config.{
  Config, ConfigError, ResolvedClient, Library, server_addresses, resolved_clients,
}
use jiejie_masque_unified.Config.Load.{Reader, load}
use jiejie_masque_unified.Config.Distinctness.{resolved_clients-IsResolution}
use jiejie_masque_unified.Keygen.{PrivateKey}
use jiejie_masque_unified.Handler.{by_key, client_of}
use jiejie_masque_unified.Handler.Authentication.{client_of-key}
use jiejie_masque_unified.ClientConfig.{
  KeyFormats, from_config, check_options, Options, Tools, Node, node_of, parse_client_private_key,
  encode_client_auth_public_key, canonical_client_private_key, select_mihomo_client,
  server_public_key, mihomo_node, pos,
}
use jiejie_masque_unified.ClientConfig.Entries.{
  IsServerKey, server_public_key-IsServerKey, Says, node_of-Says,
}

select_mihomo_client-In :
    (clients : List ResolvedClient) (key : String) (cl : ResolvedClient)
    → select_mihomo_client clients key ≡ ok cl
    → In cl clients × (cl.public_key ≡ key)
unfolding select_mihomo_client
select_mihomo_client-In [] key cl h = cc
select_mihomo_client-In (x ∷ xs) key cl h =
    ground (arith, string_eq.equals_iff x.public_key key, select_mihomo_client-In xs key cl)

from_config-ok : {A : Type 0} (r : Result ConfigError A) {x : A} → from_config r ≡ ok x → r ≡ ok x
from_config-ok (ok y) h = ap ok (ok-injective y _ h)
from_config-ok (err e) h = cc

encode_client_auth_public_key-ok :
    (c : Crypto) (key : PrivateKey) (s : String)
    → encode_client_auth_public_key c key ≡ ok s
    → s ≡ c.encode_to_string (c.marshal key.x key.y)
unfolding encode_client_auth_public_key
encode_client_auth_public_key-ok c key s h = ground arith

-- A certificate with the public part of a P-256 key.
abbrev pub certificate_of : PrivateKey → Bytes → Certificate
certificate_of key raw = record {
  raw_subject_public_key_info = raw;
  public_key = ecdsa true key.x key.y;
}

module _ (l : Library) (r : Reader) (k : KeyFormats) (t : Tools) where
  key_bytes :
      (key : PrivateKey) (raw : Bytes)
      → l.crypto.encode_to_string (l.crypto.marshal key.x key.y)
        ≡ public_key_bytes l.crypto (certificate_of key raw)
  unfolding public_key_bytes elliptic_marshal
  key_bytes key raw = refl

  check_options-port :
      (o : Options) (u : Unit {0})
      → check_options o ≡ ok u
      → (p : ℕ) × (o.port ≡ pos p) × (1 ≤ p) × (p ≤ 65535)
  unfolding check_options
  check_options-port o u h = ground arith

  -- The node is for a client of the loaded configuration, and the server finds that client, with its
  -- byKey, for every certificate with the options' private key.
  pub record IsNodeFor (o : Options) (n : Node) (cl : ResolvedClient) : Type 0 where
    pub config : Config
    pub loaded : load l r o.config ≡ ok config
    pub clients : List ResolvedClient
    pub resolved : resolved_clients l config ≡ ok clients
    pub member : In cl clients
    pub port : (p : ℕ) × (o.port ≡ pos p) × (1 ≤ p) × (p ≤ 65535)
    pub key : PrivateKey
    pub parsed : parse_client_private_key k l.crypto o.private_key ≡ ok key
    pub der : Bytes
    pub marshalled : k.marshal_ec_private_key key ≡ some der
    pub public_key : String
    pub server_key : IsServerKey l r k t config.tls.cert public_key
    pub says : Says l r k t o n (l.crypto.encode_to_string der) public_key cl
    pub known :
        (raw : Bytes)
        → client_of l.crypto (by_key clients []) (certificate_of key raw ∷ []) ≡ some cl

  canonical-encoded :
      (key : PrivateKey) (text : String)
      → canonical_client_private_key k l.crypto key ≡ ok text
      → (der : Bytes) × (k.marshal_ec_private_key key ≡ some der)
        × (text ≡ l.crypto.encode_to_string der)
  unfolding canonical_client_private_key
  canonical-encoded key text h =
      let (der, e, g) = >>=-eq-ok _ _ h in (der, need-eq-ok _ _ e, sym (ok-injective _ _ g))

  -- A node that mihomo-config makes has the prefixes of a client of the loaded configuration, where they
  -- are there, the re-encoded private key given, the public key of the server's certificate, the
  -- options' name, server, port, which is in range, and SNI, if not empty, and the fixed entries;
  -- and a server with that configuration takes every certificate with that private key for this
  -- client.
  pub mihomo_node-IsNodeFor :
      (o : Options) (n : Node)
      → mihomo_node l r k t o ≡ ok n
      → (cl : ResolvedClient) × IsNodeFor o n cl
  unfolding mihomo_node
  mihomo_node-IsNodeFor o n h =
      let (checked, e0, h0) = >>=-eq-ok (check_options o) _ h in
      let (c, e1, h1) = >>=-eq-ok (from_config (load l r o.config)) _ h0 in
      let (clients, e2, h2) = >>=-eq-ok (from_config (resolved_clients l c)) _ h1 in
      let (key, e3, h3) = >>=-eq-ok (parse_client_private_key k l.crypto o.private_key) _ h2 in
      let (public, e4, h4) = >>=-eq-ok (encode_client_auth_public_key l.crypto key) _ h3 in
      let (canon, e5, h5) = >>=-eq-ok (canonical_client_private_key k l.crypto key) _ h4 in
      let (cl, e6, h6) = >>=-eq-ok (select_mihomo_client clients public) _ h5 in
      let (server_key, e7, h7) = >>=-eq-ok (server_public_key l r k t c.tls.cert) _ h6 in
      let (der, marshalled, encoded) = canonical-encoded key canon e5 in
      let (addresses, e8, h8) = >>=-eq-ok (from_config (server_addresses l c)) _ h7 in
      let (member, named) = select_mihomo_client-In clients public cl e6 in
      (
        cl,
        record {
          config = c;
          loaded = from_config-ok _ e1;
          clients = clients;
          resolved = from_config-ok _ e2;
          member = member;
          key = key;
          parsed = e3;
          port = check_options-port o checked e0;
          der = der;
          marshalled = marshalled;
          public_key = server_key;
          server_key = server_public_key-IsServerKey l r k t c.tls.cert server_key e7;
          says =
              subst (λ m. Says l r k t o m (l.crypto.encode_to_string der) server_key cl)
                (ok-injective _ _ h8)
                (subst
                  (λ secret. Says l r k t o (node_of t o canon server_key cl) secret server_key cl)
                  encoded (node_of-Says l r k t o canon server_key cl));
          known = λ raw.
              client_of-key l.crypto clients (certificate_of key raw) cl
                (resolved_clients-IsResolution l c clients (from_config-ok _ e2)).keys_distinct
                member
                (named
                  ∙ encode_client_auth_public_key-ok l.crypto key public e4
                  ∙ key_bytes key raw);
        },
      )

-- ===== src/ClientConfig/Entries.antt =====
-- cmd/jiejie-masque/mihomo_config.go: what the entries of a printed node are.
use jiejie_masque_unified.Base.{
  ℕ, not, ◌≢◌, ◌≡◌, refl, ap, sym, ◌∙◌, ◌⊎◌, string_eq, true, false, Option, none, some, String,
  if◌then◌else◌, arith,
}
use jiejie_masque_unified.Base.Fallible.{ok, err, need-eq-ok, >>=-eq-ok, ok-injective}
use jiejie_masque_unified.Auth.{Bytes, PublicKey, ecdsa, other_key}
use jiejie_masque_unified.Config.{ResolvedClient, Library}
use jiejie_masque_unified.Config.Load.{Reader}
use jiejie_masque_unified.Net.{Prefix, prefix_is_valid}
use jiejie_masque_unified.ClientConfig.{
  KeyFormats, cert_not_p256, Options, Tools, Node, node_of, server_public_key, Block, prefix_entry,
  is_p256, first_certificate, decode_first_certificate, encode_server_endpoint_public_key,
}

module _ (l : Library) (r : Reader) (k : KeyFormats) (t : Tools) where
  -- The text is the base64 of the public key in the first block of the file, a certificate with a
  -- P-256 key.
  pub record IsServerKey (path text : String) : Type 0 where
    pub pem : Bytes
    pub readable : t.read_file path ≡ some pem
    pub block : Block
    pub decoded : t.pem_decode pem ≡ some block
    pub typed : block.block_type ≡ "CERTIFICATE"
    pub x : ℕ
    pub y : ℕ
    pub parsed : t.parse_certificate block.bytes ≡ some (ecdsa true x y)
    pub der : Bytes
    pub marshalled : k.marshal_pkix_public_key (ecdsa true x y) ≡ some der
    pub encoded : text ≡ l.crypto.encode_to_string der

  first_certificate-ok :
      (o : Option Block) (der : Bytes)
      → first_certificate o ≡ ok der
      → (b : Block) × (o ≡ some b) × (b.block_type ≡ "CERTIFICATE") × (der ≡ b.bytes)
  unfolding first_certificate
  first_certificate-ok none der h = cc
  first_certificate-ok (some b) der h =
      (b, refl, ground (arith, string_eq.equals_iff b.block_type "CERTIFICATE"), ground arith)

  encode_server-ok :
      (key : PublicKey) (text : String)
      → encode_server_endpoint_public_key k l.crypto key ≡ ok text
      → (x : ℕ) × (y : ℕ) × (der : Bytes) × (key ≡ ecdsa true x y)
        × (k.marshal_pkix_public_key (ecdsa true x y) ≡ some der)
        × (text ≡ l.crypto.encode_to_string der)
  unfolding encode_server_endpoint_public_key
  encode_server-ok other_key text h = cc
  encode_server-ok (ecdsa false x y) text h = cc
  encode_server-ok (ecdsa true x y) text h =
      let (der, e, g) = >>=-eq-ok _ _ h in
      (x, y, der, refl, need-eq-ok _ _ e, sym (ok-injective _ _ g))

  encoded_key :
      (key : PublicKey) (text : String)
      → (if not (is_p256 key)
          then err cert_not_p256
          else encode_server_endpoint_public_key k l.crypto key)
        ≡ ok text
      → encode_server_endpoint_public_key k l.crypto key ≡ ok text
  encoded_key key text h = ground arith

  pub server_public_key-IsServerKey :
      (path text : String) → server_public_key l r k t path ≡ ok text → IsServerKey path text
  unfolding server_public_key decode_first_certificate
  server_public_key-IsServerKey path text h =
      let (pem, e0, h0) = >>=-eq-ok _ _ h in
      let (der, e1, h1) = >>=-eq-ok _ _ h0 in
      let (key, e2, h2) = >>=-eq-ok _ _ h1 in
      let (b, e3, typed, same) = first_certificate-ok _ der e1 in
      let (x, y, out, e4, e5, e6) = encode_server-ok key text (encoded_key key text h2) in
      record {
        pem = pem;
        readable = need-eq-ok _ _ e0;
        block = b;
        decoded = e3;
        typed = typed;
        x = x;
        y = y;
        parsed = ap t.parse_certificate (sym same) ∙ need-eq-ok _ _ e2 ∙ ap some e4;
        der = out;
        marshalled = e5;
        encoded = e6;
      }

  -- The entry is the text of a prefix that is there, and is left out otherwise.
  abbrev pub IsEntry : Prefix → Option String → Type 0
  IsEntry p entry =
      ((prefix_is_valid p ≡ true) × (entry ≡ some (t.prefix_string p)))
      ⊎ ((prefix_is_valid p ≡ false) × (entry ≡ none))

  prefix_entry-IsEntry : (p : Prefix) → IsEntry p (prefix_entry t p)
  prefix_entry-IsEntry p = ground arith

  -- What the node says: the fixed entries, the options, the two keys and the client's prefixes.
  pub record Says (o : Options) (n : Node) (secret public : String) (cl : ResolvedClient)
      : Type 0 where
    pub named : n.name ≡ o.name
    pub typed : n.node_type ≡ "masque"
    pub addressed : n.server ≡ o.server
    pub port : n.port ≡ o.port
    pub private_key : n.private_key ≡ secret
    pub public_key : n.public_key ≡ public
    pub mtu : n.mtu ≡ 1280
    pub udp : n.udp ≡ true
    pub stack : n.ip_stack_mode ≡ "mips"
    pub controllers :
        (n.ip_stack_congestion_controller ≡ "bbr3")
        × (n.congestion_controller ≡ "bbr")
        × (n.bbr_profile ≡ "standard")
    pub ip : IsEntry cl.tunnel_ipv4 n.ip
    pub ipv6 : IsEntry cl.tunnel_ipv6 n.ipv6
    pub sni : ((o.sni ≡ "") × (n.sni ≡ none)) ⊎ ((o.sni ≢ "") × (n.sni ≡ some o.sni))

  pub node_of-Says :
      (o : Options) (secret public : String) (cl : ResolvedClient)
      → Says o (node_of t o secret public cl) secret public cl
  unfolding node_of
  node_of-Says o secret public cl = record {
    named = refl;
    typed = refl;
    addressed = refl;
    port = refl;
    private_key = refl;
    public_key = refl;
    mtu = refl;
    udp = refl;
    stack = refl;
    controllers = (refl, refl, refl);
    ip = prefix_entry-IsEntry cl.tunnel_ipv4;
    ipv6 = prefix_entry-IsEntry cl.tunnel_ipv6;
    sni = ground (arith, string_eq.equals_iff o.sni "");
  }

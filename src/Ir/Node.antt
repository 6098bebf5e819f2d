-- ===== src/Ir/Node.antt =====
-- crates/ir/src/lib.rs: a node and its identity, the hash of what it does. The serialiser
-- (bincode), the hash (SHA-256) and the parser of IP addresses are parameters.
use yarisugi.Prelude.{
  ℕ, ◌≡◌, refl, inl, inr, Bool, ◌&&◌, List, Option, none, some, Result, ok, err, leb, ◌==◌,
  Bool-cases, if◌then◌else◌, String,
}
use yarisugi.Prelude.Results.{◌>>=◌, >>=-eq-ok}
use yarisugi.Ir.Protocol.{IpAddr, ProtocolSpec}
use yarisugi.Ir.Transport.{TransportSpec, SecuritySpec, MuxSpec}
use yarisugi.Ir.Hosts.{Text, normalize_host, normalize_host-normalize_host}

abbrev pub CanonicalHash : Type 0
CanonicalHash = List ℕ

abbrev pub canonical_hash_version : ℕ
canonical_hash_version = 1

pub record NodeMetadata : Type 0 where
  pub sub_id : ℕ
  pub label : String
  pub country_code : ℕ × ℕ
  pub import_timestamp : ℕ

unfoldable pub is_ascii_uppercase : ℕ → Bool
is_ascii_uppercase c = leb b'A' c && leb c b'Z'

unfoldable pub new_metadata : ℕ → String → ℕ × ℕ → ℕ → Result NodeMetadata
unfolding is_ascii_uppercase
new_metadata sub_id label (a, b) import_timestamp =
    if is_ascii_uppercase a && is_ascii_uppercase b
    then ok (record {
      sub_id = sub_id;
      label = label;
      country_code = (a, b);
      import_timestamp = import_timestamp;
    })
    else err "country code must use uppercase ASCII letters"

pub record SocketAddr : Type 0 where
  pub address : IpAddr
  pub port : ℕ

pub data EndpointTarget : Type 0 where
  ip : SocketAddr → EndpointTarget
  domain : Text → ℕ → EndpointTarget

pub record FunctionalIdentity : Type 0 where
  pub version : ℕ
  pub endpoint : EndpointTarget
  pub protocol : ProtocolSpec
  pub transport : TransportSpec
  pub security : SecuritySpec
  pub mux : Option MuxSpec

pub record CanonicalNode : Type 0 where
  pub hash : CanonicalHash
  pub meta : NodeMetadata
  pub endpoint : EndpointTarget
  pub protocol : ProtocolSpec
  pub transport : TransportSpec
  pub security : SecuritySpec
  pub mux : Option MuxSpec

unfoldable pub filter_enabled : Option MuxSpec → Option MuxSpec
filter_enabled none = none
filter_enabled (some value) = if value.enabled then some value else none

module _ (is_ip_address : Text → Bool) where
  unfoldable pub new_domain : Text → ℕ → Result EndpointTarget
  new_domain host port =
      if port == 0
      then err "endpoint port cannot be zero"
      else do normalized ← normalize_host is_ip_address host; ok (domain normalized port)

  unfoldable pub normalize : EndpointTarget → Result EndpointTarget
  unfolding new_domain
  normalize (ip address) =
      if address.port == 0 then err "endpoint port cannot be zero" else ok (ip address)
  normalize (domain host port) = new_domain host port

  pub normalize-normalize : (e e' : EndpointTarget) → normalize e ≡ ok e' → normalize e' ≡ ok e'
  unfolding normalize
  normalize-normalize (ip address) e' h = elim (Bool-cases (address.port == 0)) [
    | inl zero_port ↦ absurd (cc (rw zero_port at h))
    | inr good ↦ let same : e' ≡ ip address = cc (rw good at h) in rw (same, good) refl
  ]
  normalize-normalize (domain host port) e' h = elim (Bool-cases (port == 0)) [
    | inl zero_port ↦ absurd (cc (rw zero_port at h))
    | inr good ↦
        let (name, normal, is) = >>=-eq-ok (normalize_host is_ip_address host) _ (rw good at h) in
        let (again, _, _) = normalize_host-normalize_host is_ip_address host name normal in
        let same : e' ≡ domain name port = cc is in rw (same, good, again) refl
  ]

  module _ (serialize : FunctionalIdentity → Result (List ℕ))
      (sha256 : List ℕ → CanonicalHash) where
    unfoldable pub functional_identity_bytes : CanonicalNode → Result (List ℕ)
    functional_identity_bytes node = serialize (record {
      version = canonical_hash_version;
      endpoint = node.endpoint;
      protocol = node.protocol;
      transport = node.transport;
      security = node.security;
      mux = node.mux;
    })

    unfoldable pub try_new :
        NodeMetadata
        → EndpointTarget
        → ProtocolSpec
        → TransportSpec
        → SecuritySpec
        → Option MuxSpec
        → Result CanonicalNode
    unfolding normalize filter_enabled
    try_new meta endpoint protocol transport security mux = do
      endpoint ← normalize endpoint
      let mux = filter_enabled mux
      bytes ← serialize (record {
        version = canonical_hash_version;
        endpoint = endpoint;
        protocol = protocol;
        transport = transport;
        security = security;
        mux = mux;
      })
      ok (record {
        hash = sha256 bytes;
        meta = meta;
        endpoint = endpoint;
        protocol = protocol;
        transport = transport;
        security = security;
        mux = mux;
      })

-- ===== src/Ir/Identity.antt =====
-- crates/ir/src/lib.rs, `CanonicalNode::try_new`: what the hash of a node depends on.
use yarisugi.Prelude.{ℕ, ◌≡◌, refl, Bool, List, Option, none, some, Result, ok, arith}
use yarisugi.Prelude.Results.{>>=-eq-ok}
use yarisugi.Ir.Protocol.{ProtocolSpec}
use yarisugi.Ir.Transport.{TransportSpec, SecuritySpec, MuxSpec}
use yarisugi.Ir.Hosts.{Text}
use yarisugi.Ir.Node.{
  CanonicalHash, canonical_hash_version, NodeMetadata, EndpointTarget, FunctionalIdentity,
  CanonicalNode, filter_enabled, normalize, normalize-normalize, functional_identity_bytes, try_new,
}

filter_enabled-twice :
    (mux : Option MuxSpec) → filter_enabled (filter_enabled mux) ≡ filter_enabled mux
unfolding filter_enabled
filter_enabled-twice none = refl
filter_enabled-twice (some value) = ground arith

module _ (is_ip_address : Text → Bool) (serialize : FunctionalIdentity → Result (List ℕ))
    (sha256 : List ℕ → CanonicalHash) where
  abbrev build :
      NodeMetadata
      → EndpointTarget
      → ProtocolSpec
      → TransportSpec
      → SecuritySpec
      → Option MuxSpec
      → Result CanonicalNode
  build = try_new is_ip_address serialize sha256

  -- The identity that is hashed, of parts that are normalised.
  abbrev identity :
      EndpointTarget
      → ProtocolSpec
      → TransportSpec
      → SecuritySpec
      → Option MuxSpec
      → FunctionalIdentity
  identity endpoint protocol transport security mux = record {
    version = canonical_hash_version;
    endpoint = endpoint;
    protocol = protocol;
    transport = transport;
    security = security;
    mux = mux;
  }

  try_new-inv :
      (meta : NodeMetadata) (e : EndpointTarget) (p : ProtocolSpec) (t : TransportSpec)
      (s : SecuritySpec) (mux : Option MuxSpec) (n : CanonicalNode)
      → try_new is_ip_address serialize sha256 meta e p t s mux ≡ ok n
      → (e' : EndpointTarget) × (bytes : List ℕ) × (normalize is_ip_address e ≡ ok e')
        × (serialize (identity e' p t s (filter_enabled mux)) ≡ ok bytes)
        × (record {
          hash = sha256 bytes;
          meta = meta;
          endpoint = e';
          protocol = p;
          transport = t;
          security = s;
          mux = filter_enabled mux;
        }
            ≡ n)
  unfolding try_new
  try_new-inv meta e p t s mux n h =
      let (e', normal, g) = >>=-eq-ok (normalize is_ip_address e) _ h in
      let (bytes, written, same) =
        >>=-eq-ok (serialize (identity e' p t s (filter_enabled mux))) _ g in
      (e', bytes, normal, written, cc same)

  -- The hash of a node that `try_new` gives is that of its own identity bytes, and its parts are
  -- normal: `try_new` on them gives the node again.
  pub try_new-try_new :
      (meta : NodeMetadata) (e : EndpointTarget) (p : ProtocolSpec) (t : TransportSpec)
      (s : SecuritySpec) (mux : Option MuxSpec) (n : CanonicalNode)
      → try_new is_ip_address serialize sha256 meta e p t s mux ≡ ok n
      → ((bytes : List ℕ) × (functional_identity_bytes is_ip_address serialize sha256 n ≡ ok bytes)
          × (n.hash ≡ sha256 bytes))
        × (try_new is_ip_address serialize sha256 n.meta n.endpoint n.protocol n.transport
              n.security n.mux
            ≡ ok n)
  unfolding try_new functional_identity_bytes
  try_new-try_new meta e p t s mux n h =
      let (e', bytes, normal, written, same) = try_new-inv meta e p t s mux n h in
      rw (← same) (
        (bytes, written, refl),
        rw (normalize-normalize is_ip_address e e' normal, filter_enabled-twice mux, written) refl,
      )

  -- The hash and every other part of a node but its metadata depend neither on the metadata nor on
  -- a multiplexer that is not enabled.
  pub try_new-relabel :
      (meta meta' : NodeMetadata) (e : EndpointTarget) (p : ProtocolSpec) (t : TransportSpec)
      (s : SecuritySpec) (mux mux' : Option MuxSpec) (n : CanonicalNode)
      → filter_enabled mux' ≡ filter_enabled mux
      → try_new is_ip_address serialize sha256 meta e p t s mux ≡ ok n
      → try_new is_ip_address serialize sha256 meta' e p t s mux' ≡ ok (record n { meta = meta' })
  unfolding try_new
  try_new-relabel meta meta' e p t s mux mux' n f h =
      let (e', bytes, normal, written, same) = try_new-inv meta e p t s mux n h in
      rw (← same, normal, f, written) refl

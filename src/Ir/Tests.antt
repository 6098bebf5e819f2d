-- ===== src/Ir/Tests.antt =====
-- The theorems on nodes at inputs that meet their hypotheses.
use yarisugi.Prelude.{ℕ, ◌≡◌, refl, Bool, false, List, [], ◌∷◌, none, some, Result, ok}
use yarisugi.Ir.Protocol.{ProtocolSpec, trojan}
use yarisugi.Ir.Transport.{tcp, no_security, MuxSpec, smux}
use yarisugi.Ir.Hosts.{
  Text, is_whitespace, lower, is_malformed, normalize_host, normalize_host-normalize_host,
}
use yarisugi.Ir.Node.{
  CanonicalNode, FunctionalIdentity, NodeMetadata, domain, filter_enabled,
  functional_identity_bytes, try_new, new_metadata,
}
use yarisugi.Ir.Identity.{try_new-try_new, try_new-relabel}

abbrev no_address : Text → Bool
no_address host = false

-- "A.De." and "a.de"
abbrev shouted : Text
shouted = 32 ∷ b'A' ∷ b'.' ∷ b'D' ∷ b'e' ∷ b'.' ∷ []

abbrev name : Text
name = b'a' ∷ b'.' ∷ b'd' ∷ b'e' ∷ []

abbrev toy_bytes : FunctionalIdentity → Result (List ℕ)
toy_bytes identity = ok (identity.version ∷ [])

abbrev toy_hash : List ℕ → List ℕ
toy_hash bytes = bytes

abbrev meta : NodeMetadata
meta = record { sub_id = 1; label = "one"; country_code = (b'D', b'E'); import_timestamp = 1 }

abbrev other : NodeMetadata
other = record { sub_id = 2; label = "two"; country_code = (b'U', b'S'); import_timestamp = 9 }

abbrev plain : ProtocolSpec
plain = trojan (record { password = "secret" })

abbrev disabled : MuxSpec
disabled = record { enabled = false; concurrency = 32; protocol = smux }

abbrev node : CanonicalNode
node = record {
  hash = 1 ∷ [];
  meta = meta;
  endpoint = domain name 443;
  protocol = plain;
  transport = tcp;
  security = no_security;
  mux = none;
}

normal : normalize_host no_address shouted ≡ ok name
unfolding normalize_host is_whitespace lower
normal = refl

built :
    try_new no_address toy_bytes toy_hash meta (domain shouted 443) plain tcp no_security none
    ≡ ok node
unfolding try_new normalize_host is_whitespace lower
built = refl

checked_code : new_metadata 1 "one" (b'D', b'E') 1 ≡ ok meta
unfolding new_metadata
checked_code = refl

same_filter : filter_enabled (some disabled) ≡ filter_enabled none
unfolding filter_enabled
same_filter = refl

normalize_host-normalize_host_example :
    (normalize_host no_address name ≡ ok name)
    × (is_malformed name ≡ false)
    × (no_address name ≡ false)
normalize_host-normalize_host_example = normalize_host-normalize_host no_address shouted name normal

try_new-try_new_example :
    ((bytes : List ℕ) × (functional_identity_bytes no_address toy_bytes toy_hash node ≡ ok bytes)
      × (node.hash ≡ toy_hash bytes))
    × (try_new no_address toy_bytes toy_hash meta (domain name 443) plain tcp no_security none
        ≡ ok node)
try_new-try_new_example =
    try_new-try_new no_address toy_bytes toy_hash meta (domain shouted 443) plain tcp no_security
      none node built

try_new-relabel_example :
    try_new no_address toy_bytes toy_hash other
      (domain shouted 443)
      plain
      tcp
      no_security
      (some disabled)
    ≡ ok (record node { meta = other })
try_new-relabel_example =
    try_new-relabel no_address toy_bytes toy_hash meta other (domain shouted 443) plain tcp
      no_security none (some disabled) node same_filter built

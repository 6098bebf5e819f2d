-- ===== src/Parser/Tests.antt =====
-- The theorems on imports at concrete inputs.
use yarisugi.Prelude.{false, ◌==◌, if◌then◌else◌, ℕ, ◌≡◌, refl, List, [], ◌∷◌, none, ok, length}
use yarisugi.Ir.Hosts.{lower}
use yarisugi.Ir.Protocol.{trojan}
use yarisugi.Ir.Transport.{tcp, no_security}
use yarisugi.Ir.Node.{CanonicalNode, domain}
use yarisugi.Parser.Country.{chars, as_bytes, extract_country_code}
use yarisugi.Parser.Metadata.{IsCode, make_metadata-ok}
use yarisugi.Parser.Ingest.{make_metadata, Formats, Parsed, parsed, refused, invalid_uri}
use yarisugi.Parser.Import.{ingest_with_timestamp}
use yarisugi.Parser.Accounts.{Accounts}
use yarisugi.Parser.Bounds.{IsSound, ingest_with_timestamp-IsSound}

-- The dictionary of the last rule, a tag at the end, and one too far from the end.
by_keyword : extract_country_code (chars "Fast Tokyo 3") ≡ (b'J', b'P')
unfolding extract_country_code lower
by_keyword = refl

by_tag : extract_country_code (chars "Tokyo (US) x") ≡ (b'U', b'S')
unfolding extract_country_code lower
by_tag = refl

-- The tag of a long label is not read.
far_tag : extract_country_code (chars "[DE] via Tokyo") ≡ (b'J', b'P')
unfolding extract_country_code lower
far_tag = refl

abbrev node : CanonicalNode
node = record {
  hash = 1 ∷ [];
  meta = record { sub_id = 1; label = "one"; country_code = (b'D', b'E'); import_timestamp = 1 };
  endpoint = domain (chars "a.de") 443;
  protocol = trojan (record { password = "secret" });
  transport = tcp;
  security = no_security;
  mux = none;
}

-- Every text is its bytes; an entry with a "b" is refused.
abbrev formats : Formats
formats = record {
  from_utf8 = λ bytes. ok bytes;
  from_utf8_lossy = λ bytes. bytes;
  engines = [];
  has_bounds = λ text. false;
  parse_entry = λ entry sub_id timestamp.
      if length entry == 10 then parsed node else refused (invalid_uri "uri");
  ingest_clash_yaml = λ text sub_id timestamp. refused (invalid_uri "clash");
}

abbrev input : List ℕ
input = as_bytes (chars "ss://aaaaa")

make_metadata-ok_example :
    (found : ℕ × ℕ) × IsCode found
    × (make_metadata 7 "[DE] via Tokyo" 9
        ≡ parsed (record {
          sub_id = 7;
          label = "[DE] via Tokyo";
          country_code = found;
          import_timestamp = 9;
        }))
make_metadata-ok_example = make_metadata-ok 7 "[DE] via Tokyo" 9

abbrev results : List (ℕ × (List ℕ × Parsed CanonicalNode))
results =
    (1, (input, parsed node))
    ∷ (2, (input, parsed node))
    ∷ (4, (input, refused (invalid_uri "uri")))
    ∷ []

ingest_with_timestamp-IsSound_example : IsSound (ingest_with_timestamp formats 1 5 input)
ingest_with_timestamp-IsSound_example = ingest_with_timestamp-IsSound formats 1 5 input

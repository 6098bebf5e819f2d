-- ===== src/Parser/Ingest.antt =====
-- crates/parser/src/lib.rs and error.rs: the import of a subscription, and its report. The parsers of
-- one entry and of a Clash document, UTF-8, Base64 and JSON are parameters.
use yarisugi.Prelude.{
  ℕ, suc, ◌+◌, Bool, false, not, ◌&&◌, ◌||◌, List, [], ◌∷◌, ◌++◌, Option, String, Result, ok, err,
  ltb, if◌then◌else◌, length, take, map, unwrap_or,
}
use yarisugi.Ir.Hosts.{Text, is_empty}
use yarisugi.Ir.Node.{CanonicalNode, CanonicalHash, NodeMetadata, new_metadata}
use yarisugi.Parser.Country.{chars, as_bytes, starts_with, extract_country_code}
use yarisugi.Parser.Format.{scheme_of, same_text, trim, lines}

pub data ParseError : Type 0 where
  unsupported_format : String → ParseError
  invalid_uri : String → ParseError
  base64_decode : String → ParseError
  json : String → ParseError
  missing_field : String → ParseError
  invalid_uuid : String → ParseError
  invalid_endpoint : String → ParseError
  invalid_value : String → String → ParseError

-- `Result<_, ParseError>`
pub data Parsed (A : Type 0) : Type 0 where
  refused : ParseError → Parsed A
  parsed : A → Parsed A

pub record ParseFailure : Type 0 where
  pub entry_index : ℕ
  pub line_number : ℕ
  pub raw_snippet : Text
  pub reason : ParseError

pub record IngestionReport : Type 0 where
  pub total_entries_scanned : ℕ
  pub successful_nodes : List CanonicalNode
  pub duplicates_omitted : ℕ
  pub failed_entries : List ParseFailure

unfoldable pub default_report : IngestionReport
default_report = record {
  total_entries_scanned = 0;
  successful_nodes = [];
  duplicates_omitted = 0;
  failed_entries = [];
}

abbrev pub max_entries : ℕ
max_entries = 100000

abbrev pub max_failures : ℕ
max_failures = 10000

abbrev pub max_snippet_bytes : ℕ
max_snippet_bytes = 160

-- What the import calls. `from_utf8_lossy` never fails; `engines` are the decoders of Base64, in order.
pub record Formats : Type 0 where
  pub from_utf8 : List ℕ → Result Text
  pub from_utf8_lossy : List ℕ → Text
  pub engines : List (List ℕ → Option (List ℕ))
  pub has_bounds : Text → Bool
  pub parse_entry : Text → ℕ → ℕ → Parsed CanonicalNode
  pub ingest_clash_yaml : Text → ℕ → ℕ → Parsed (List (Parsed CanonicalNode))

-- The error of the metadata's constructor, as an error of the parser.
abbrev pub metadata_error : Result NodeMetadata → Parsed NodeMetadata
metadata_error (ok meta) = parsed meta
metadata_error (err e) = refused (invalid_value "metadata" e)

unfoldable pub make_metadata : ℕ → String → ℕ → Parsed NodeMetadata
unfolding new_metadata extract_country_code
make_metadata sub_id label import_timestamp =
    metadata_error (new_metadata sub_id label (extract_country_code (chars label)) import_timestamp)

-- `seen.insert(hash)` is true where the set does not have the hash; hashes are texts of bytes.
abbrev pub has_hash : CanonicalHash → List CanonicalHash → Bool
has_hash hash [] = false
has_hash hash (h ∷ seen) = same_text h hash || has_hash hash seen

-- The lines with their numbers, from a number on, without blank lines and comments.
unfoldable pub numbered : ℕ → List Text → List (ℕ × Text)
numbered n [] = []
numbered n (line ∷ rest) =
    let entry = trim line in
    let later = numbered (suc n) rest in
    if not (is_empty entry) && not (starts_with entry (chars "#"))
    then (n, entry) ∷ later
    else later

unfoldable pub collect_entries : Text → List (ℕ × Text)
unfolding numbered
collect_entries text = numbered 1 (lines text)

module _ (formats : Formats) where
  open formats use {from_utf8, from_utf8_lossy, engines, has_bounds, parse_entry, ingest_clash_yaml}

  unfoldable pub safe_snippet : List ℕ → Text
  unfolding scheme_of
  safe_snippet raw =
      let scheme = unwrap_or (scheme_of (trim (from_utf8_lossy raw))) (chars "entry") in
      take max_snippet_bytes (scheme ++ chars "://[redacted]")

  unfoldable pub record_failure : IngestionReport → ℕ → ℕ → List ℕ → ParseError → IngestionReport
  unfolding safe_snippet
  record_failure report entry_index line_number raw reason =
      if ltb (length report.failed_entries) max_failures
      then record report {
        failed_entries =
            report.failed_entries
            ++ (record {
              entry_index = entry_index;
              line_number = line_number;
              raw_snippet = safe_snippet raw;
              reason = reason;
            }
                ∷ []);
      }
      else report

  -- A result of the parser, at its place in the input, is taken into the report.
  unfoldable pub scan_one :
      IngestionReport
      → List CanonicalHash
      → ℕ
      → ℕ
      → List ℕ
      → Parsed CanonicalNode
      → IngestionReport × List CanonicalHash
  unfolding record_failure
  scan_one report seen index line_number raw (refused reason) =
      (record_failure report index line_number raw reason, seen)
  scan_one report seen index line_number raw (parsed node) =
      if has_hash node.hash seen
      then (record report { duplicates_omitted = report.duplicates_omitted + 1 }, seen)
      else (
        record report { successful_nodes = report.successful_nodes ++ (node ∷ []) },
        node.hash ∷ seen,
      )

  -- The loop of both imports, over the places and results that are left.
  unfoldable pub scan :
      IngestionReport
      → List CanonicalHash
      → ℕ
      → List (ℕ × (List ℕ × Parsed CanonicalNode))
      → IngestionReport
  unfolding scan_one
  scan report seen index [] = report
  scan report seen index ((line_number, (raw, result)) ∷ rest) =
      let counted = record report { total_entries_scanned = report.total_entries_scanned + 1 } in
      let next = scan_one counted seen index line_number raw result in
      scan next.0 next.1 (suc index) rest

  unfoldable pub scan_entries : IngestionReport → List (ℕ × Text) → ℕ → ℕ → IngestionReport
  unfolding scan
  scan_entries report entries sub_id timestamp = scan report [] 0 (
      map (λ entry. (entry.0, (as_bytes entry.1, parse_entry entry.1 sub_id timestamp)))
        (take max_entries entries))

  -- The results of a Clash document, with the numbers of their lines.
  abbrev pub placed :
      List ℕ → ℕ → List (Parsed CanonicalNode) → List (ℕ × (List ℕ × Parsed CanonicalNode))
  placed raw n [] = []
  placed raw n (result ∷ rest) = (n, (raw, result)) ∷ placed raw (suc n) rest

  unfoldable pub scan_document :
      IngestionReport → List ℕ → Parsed (List (Parsed CanonicalNode)) → IngestionReport
  unfolding scan record_failure
  scan_document report raw (refused reason) = record_failure report 0 1 raw reason
  scan_document report raw (parsed results) =
      scan report [] 0 (placed raw 1 (take max_entries results))

  unfoldable pub ingest_clash_document : IngestionReport → List ℕ → Text → ℕ → ℕ → IngestionReport
  unfolding scan_document
  ingest_clash_document report raw text sub_id timestamp =
      scan_document report raw (ingest_clash_yaml text sub_id timestamp)

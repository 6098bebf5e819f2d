-- ===== src/Parser/Bounds.antt =====
-- crates/parser/src/lib.rs, `ingest_with_timestamp`: the bounds of every report.
use yarisugi.Prelude.{
  ℕ, suc, ◌+◌, ◌≤◌, ◌≡◌, refl, sym, ap, subst, ◌∙◌, Bool, true, false, not, ◌&&◌, List, [], ◌∷◌,
  ◌++◌, map, Option, none, some, Result, ok, err, arith, length, take, keep_if, length-map,
  if◌then◌else◌,
}
use yarisugi.Prelude.Ordered.{length-take}
use yarisugi.Ir.Hosts.{Text, is_whitespace}
use yarisugi.Ir.Node.{CanonicalNode}
use yarisugi.Parser.Country.{as_bytes}
use yarisugi.Parser.Format.{
  ContainerKind, clash_yaml, sing_box_json, any_line, is_supported_scheme, trim, lines,
  detect_container, decode_bundle,
}
use yarisugi.Parser.Ingest.{
  ParseError, unsupported_format, collect_entries, Parsed, parsed, refused, IngestionReport,
  default_report, max_entries, max_failures, Formats, record_failure, scan, scan_entries, placed,
  scan_document, ingest_clash_document,
}
use yarisugi.Parser.Import.{
  import_container, import_decoded, import_bundle, import_text, import_utf8, ingest_with_timestamp,
  is_nil, any_supported, failed_input,
}
use yarisugi.Parser.Accounts.{AreFresh}
use yarisugi.Parser.Kept.{nodes_among-refusals_among}
use yarisugi.Parser.Report.{scan-Accounts}

-- A report before the scan: at most the failure of the whole input.
record IsStart (r : IngestionReport) : Type 0 where
  total : r.total_entries_scanned ≡ 0
  nodes : r.successful_nodes ≡ []
  duplicates : r.duplicates_omitted ≡ 0
  failures : length r.failed_entries ≤ 1

-- What holds of every report: the bounds on its entries and failures, the nodes, duplicates and failures
-- are at most the entries and one failure of the whole input, and no two nodes have one hash.
pub record IsSound (r : IngestionReport) : Type 0 where
  pub entries : r.total_entries_scanned ≤ max_entries
  pub failures : length r.failed_entries ≤ max_failures
  pub counts :
      length r.successful_nodes + (r.duplicates_omitted + length r.failed_entries)
      ≤ r.total_entries_scanned + 1
  pub fresh : AreFresh [] r.successful_nodes

default_report-IsStart : IsStart default_report
unfolding default_report
default_report-IsStart = record {
  total = refl;
  nodes = refl;
  duplicates = refl;
  failures = omega arith;
}

abbrev not_a_bundle : ParseError
not_a_bundle = unsupported_format "input is not a supported URI bundle"

module _ (formats : Formats) where
  length-placed :
      (raw : List ℕ) (n : ℕ) (results : List (Parsed CanonicalNode))
      → length (placed formats raw n results) ≡ length results
  length-placed raw n [] = refl
  length-placed raw n (result ∷ rest) = ap suc (length-placed raw (suc n) rest)

  failed_input-IsStart :
      (raw : List ℕ) (reason : ParseError)
      → IsStart (record_failure formats default_report 0 1 raw reason)
  unfolding record_failure default_report
  failed_input-IsStart raw reason = record {
    total = refl;
    nodes = refl;
    duplicates = refl;
    failures = omega arith;
  }

  IsStart-IsSound : (r : IngestionReport) → IsStart r → IsSound r
  IsStart-IsSound r start = record {
    entries = omega (arith, start.total);
    failures = omega (arith, start.failures);
    counts = rw (start.nodes, start.duplicates, start.total) (omega (arith, start.failures));
    fresh = rw (start.nodes) tt;
  }

  scan-IsSound :
      (r : IngestionReport) (index : ℕ) (results : List (ℕ × (List ℕ × Parsed CanonicalNode)))
      → IsStart r
      → length results ≤ max_entries
      → IsSound (scan formats r [] index results)
  scan-IsSound r index results start short =
      let (nodes, accounts, fresh, kept, total) = scan-Accounts formats r [] index results in
      let added : (scan formats r [] index results).successful_nodes ≡ nodes =
        accounts.added ∙ ap (λ before. before ++ nodes) start.nodes in
      let long = ap length added in
      let split = nodes_among-refusals_among results in
      record {
        entries = omega (arith, total, short, start.total);
        failures = omega (arith, accounts.failures_counted, start.failures);
        counts = omega (
          arith, long, total, split, accounts.nodes_counted, accounts.failures_counted,
          start.duplicates, start.failures, start.total,
        );
        fresh = subst (λ xs. AreFresh [] xs) (sym added) fresh;
      }

  abbrev result_of : ℕ → ℕ → ℕ × Text → ℕ × (List ℕ × Parsed CanonicalNode)
  result_of sub_id timestamp entry =
      (entry.0, (as_bytes entry.1, formats.parse_entry entry.1 sub_id timestamp))

  scan_entries-IsSound :
      (r : IngestionReport) (entries : List (ℕ × Text)) (sub_id timestamp : ℕ)
      → IsStart r
      → IsSound (scan_entries formats r entries sub_id timestamp)
  unfolding scan_entries
  scan_entries-IsSound r entries sub_id timestamp start =
      let same = length-map (result_of sub_id timestamp) (take max_entries entries) in
      let short = length-take max_entries entries in
      scan-IsSound r 0 (map (result_of sub_id timestamp) (take max_entries entries)) start
        (ground (arith, same, short))

  document-IsSound :
      (raw : List ℕ) (results : Parsed (List (Parsed CanonicalNode)))
      → IsSound (scan_document formats default_report raw results)
  unfolding scan_document
  document-IsSound raw (refused reason) = IsStart-IsSound _ (failed_input-IsStart raw reason)
  document-IsSound raw (parsed results) =
      let same = length-placed raw 1 (take max_entries results) in
      let short = length-take max_entries results in
      scan-IsSound default_report 0 (placed formats raw 1 (take max_entries results))
        default_report-IsStart (ground (arith, same, short))

  module _ (sub_id timestamp : ℕ) (raw : List ℕ) where
    container-IsSound :
        (text : Text) (kind : Option ContainerKind) (otherwise : IngestionReport)
        → IsSound otherwise
        → IsSound (import_container formats sub_id timestamp raw text kind otherwise)
    unfolding import_container ingest_clash_document
    container-IsSound text none otherwise h = h
    container-IsSound text (some clash_yaml) otherwise h =
        document-IsSound raw (formats.ingest_clash_yaml text sub_id timestamp)
    container-IsSound text (some sing_box_json) otherwise h =
        IsStart-IsSound _ (failed_input-IsStart raw _)

    either-IsSound :
        (test : Bool) (x y : IngestionReport)
        → IsSound x
        → IsSound y
        → IsSound (if test then x else y)
    either-IsSound true x y h g = h
    either-IsSound false x y h g = g

    decoded-IsSound :
        (entries : List (ℕ × Text)) (text : Result Text)
        → IsSound (import_decoded formats sub_id timestamp raw entries text)
    unfolding import_decoded
    decoded-IsSound entries (err e) =
        scan_entries-IsSound _ entries sub_id timestamp (failed_input-IsStart raw _)
    decoded-IsSound entries (ok text) =
        let on =
          scan_entries formats (failed_input formats sub_id timestamp raw not_a_bundle) entries
            sub_id timestamp in
        either-IsSound (any_line (λ line. is_supported_scheme (trim line)) (lines text))
          (scan_entries formats default_report (collect_entries text) sub_id timestamp)
          (import_container formats sub_id timestamp raw text
            (detect_container formats.has_bounds text) on)
          (scan_entries-IsSound default_report (collect_entries text) sub_id timestamp
            default_report-IsStart)
          (container-IsSound text (detect_container formats.has_bounds text) on (
            scan_entries-IsSound _ entries sub_id timestamp
              (failed_input-IsStart raw not_a_bundle)))

    bundle-IsSound :
        (entries : List (ℕ × Text)) (decoded : Result (List ℕ))
        → IsSound (import_bundle formats sub_id timestamp raw entries decoded)
    unfolding import_bundle
    bundle-IsSound entries (err e) =
        scan_entries-IsSound _ entries sub_id timestamp (failed_input-IsStart raw _)
    bundle-IsSound entries (ok decoded) = decoded-IsSound entries (formats.from_utf8 decoded)

    text-IsSound : (text : Result Text) → IsSound (import_utf8 formats sub_id timestamp raw text)
    unfolding import_utf8 import_text
    text-IsSound (err e) = IsStart-IsSound _ (failed_input-IsStart raw _)
    text-IsSound (ok text) =
        let entries = collect_entries text in
        let on =
          import_bundle formats sub_id timestamp raw entries (
            decode_bundle formats.engines (as_bytes (keep_if (λ c. not (is_whitespace c)) text))) in
        either-IsSound (not (is_nil entries) && not (any_supported entries))
          (import_container formats sub_id timestamp raw text
            (detect_container formats.has_bounds text) on)
          (scan_entries formats default_report entries sub_id timestamp)
          (container-IsSound text (detect_container formats.has_bounds text) on
            (bundle-IsSound entries _))
          (scan_entries-IsSound default_report entries sub_id timestamp default_report-IsStart)

    -- Whatever the input is, and whatever its parsers answer, the report of an import is sound: it has
    -- scanned at most 100,000 entries and keeps at most 10,000 failures, its nodes, duplicates and
    -- failures are at most as many as the entries and one failure of the whole input, and no two of
    -- its nodes have the same hash.
    pub ingest_with_timestamp-IsSound : IsSound (ingest_with_timestamp formats sub_id timestamp raw)
    unfolding ingest_with_timestamp
    ingest_with_timestamp-IsSound = text-IsSound (formats.from_utf8 raw)

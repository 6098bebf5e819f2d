-- ===== src/Parser/Import.antt =====
-- crates/parser/src/lib.rs, `ingest_with_timestamp`: which of the formats an import takes its input for.
use yarisugi.Prelude.{
  ℕ, Bool, true, false, not, ◌&&◌, List, [], ◌∷◌, map, Option, none, some, String, Result, ok, err,
  keep_if, if◌then◌else◌,
}
use yarisugi.Ir.Hosts.{Text, is_whitespace}
use yarisugi.Parser.Country.{as_bytes}
use yarisugi.Parser.Format.{
  is_supported_scheme, trim, lines, any_line, ContainerKind, clash_yaml, sing_box_json,
  detect_container, decode_bundle,
}
use yarisugi.Parser.Ingest.{
  ParseError, unsupported_format, invalid_uri, base64_decode, IngestionReport, default_report,
  Formats, collect_entries, record_failure, scan_entries, ingest_clash_document,
}

abbrev pub is_nil : List (ℕ × Text) → Bool
is_nil [] = true
is_nil (entry ∷ entries) = false

-- `entries.iter().any(|(_, entry)| is_supported_scheme(entry))`
abbrev pub any_supported : List (ℕ × Text) → Bool
any_supported entries = any_line is_supported_scheme (map (λ entry. entry.1) entries)

module _ (formats : Formats) (sub_id timestamp : ℕ) (raw : List ℕ) where
  open formats use {from_utf8, engines, has_bounds}

  -- A failure of the whole input.
  abbrev pub failed_input : ParseError → IngestionReport
  failed_input reason = record_failure formats default_report 0 1 raw reason

  abbrev pub sing_box_message : String
  sing_box_message = "sing-box JSON configuration is not supported; use proxy URI entries"

  -- A known container is the end of the import; otherwise the import goes on.
  unfoldable pub import_container : Text → Option ContainerKind → IngestionReport → IngestionReport
  unfolding ingest_clash_document record_failure
  import_container text (some clash_yaml) otherwise =
      ingest_clash_document formats default_report raw text sub_id timestamp
  import_container text (some sing_box_json) otherwise =
      failed_input (unsupported_format sing_box_message)
  import_container text none otherwise = otherwise

  -- The text of a decoded bundle.
  unfoldable pub import_decoded : List (ℕ × Text) → Result Text → IngestionReport
  unfolding import_container scan_entries collect_entries is_supported_scheme detect_container
  import_decoded entries (err e) =
      scan_entries formats (failed_input (unsupported_format "input is not a supported URI bundle"))
        entries sub_id timestamp
  import_decoded entries (ok text) =
      if any_line (λ line. is_supported_scheme (trim line)) (lines text)
      then scan_entries formats default_report (collect_entries text) sub_id timestamp
      else import_container text (detect_container has_bounds text) (
          scan_entries formats
            (failed_input (unsupported_format "input is not a supported URI bundle")) entries sub_id
            timestamp)

  unfoldable pub import_bundle : List (ℕ × Text) → Result (List ℕ) → IngestionReport
  unfolding import_decoded
  import_bundle entries (err e) =
      scan_entries formats (failed_input (base64_decode e)) entries sub_id timestamp
  import_bundle entries (ok decoded) = import_decoded entries (from_utf8 decoded)

  unfoldable pub import_text : Text → IngestionReport
  unfolding import_container import_bundle collect_entries scan_entries detect_container
      decode_bundle
  import_text text =
      let entries = collect_entries text in
      if not (is_nil entries) && not (any_supported entries)
      then import_container text (detect_container has_bounds text) (
          import_bundle entries
            (decode_bundle engines (as_bytes (keep_if (λ c. not (is_whitespace c)) text))))
      else scan_entries formats default_report entries sub_id timestamp

  unfoldable pub import_utf8 : Result Text → IngestionReport
  unfolding import_text
  import_utf8 (err e) = failed_input (invalid_uri e)
  import_utf8 (ok text) = import_text text

  unfoldable pub ingest_with_timestamp : IngestionReport
  unfolding import_utf8
  ingest_with_timestamp = import_utf8 (from_utf8 raw)

-- ===== src/Parser/Accounts.antt =====
-- crates/parser/src/lib.rs: what the results of an import add to its report.
use yarisugi.Prelude.{
  ℕ, ◌+◌, ◌≡◌, refl, sym, ap, ◌∙◌, Bool, true, false, List, [], ◌∷◌, ◌++◌, arith, ltb, ltb→lt,
  length, min, max, length-append, if◌then◌else◌,
}
use yarisugi.Ir.Node.{CanonicalNode, CanonicalHash}
use yarisugi.Parser.Ingest.{ParseFailure, IngestionReport, max_failures, has_hash}

-- No node has the hash of one before it, or of one that was seen already.
abbrev pub AreFresh : List CanonicalHash → List CanonicalNode → Type 0
AreFresh seen [] = Unit
AreFresh seen (node ∷ nodes) = (has_hash node.hash seen ≡ false) × AreFresh (node.hash ∷ seen) nodes

-- What results add to a report, of which `kept` are nodes and `bad` are refused: every node is new, with
-- the others, or is a duplicate, whatever the failures; and the failures are kept up to the cap.
pub record Accounts (r r' : IngestionReport) (kept bad : ℕ) (nodes : List CanonicalNode)
    : Type 0 where
  pub added : r'.successful_nodes ≡ r.successful_nodes ++ nodes
  pub nodes_counted : length nodes + r'.duplicates_omitted ≡ kept + r.duplicates_omitted
  pub failures_counted :
      length r'.failed_entries
      ≡ max (length r.failed_entries) (min (length r.failed_entries + bad) max_failures)

pub append_nil : {A : Type 0} (xs : List A) → xs ++ [] ≡ xs
append_nil [] = refl
append_nil (x ∷ xs) = ap (◌∷◌ x) (append_nil xs)

append_assoc : {A : Type 0} (xs ys zs : List A) → (xs ++ ys) ++ zs ≡ xs ++ (ys ++ zs)
append_assoc [] ys zs = refl
append_assoc (x ∷ xs) ys zs = ap (◌∷◌ x) (append_assoc xs ys zs)

-- A report with one more failure, if there is room.
pub refused-Accounts :
    (report : IngestionReport) (failure : ParseFailure) (room : Bool)
    → ltb (length report.failed_entries) max_failures ≡ room
    → Accounts report
        (if room
          then record report { failed_entries = report.failed_entries ++ (failure ∷ []) }
          else report)
        0
        1
        []
refused-Accounts report failure true h =
    let longer : length (report.failed_entries ++ (failure ∷ []))
        ≡ length report.failed_entries + 1 =
      length-append report.failed_entries (failure ∷ []) in
    let inside = ltb→lt (length report.failed_entries) max_failures h in
    record {
      added = sym (append_nil report.successful_nodes);
      nodes_counted = omega arith;
      failures_counted = omega (arith, longer, inside);
    }
refused-Accounts report failure false h = record {
  added = sym (append_nil report.successful_nodes);
  nodes_counted = omega arith;
  failures_counted = ground arith;
}

-- One result after another.
pub Accounts-trans :
    (r s t : IngestionReport) (kept bad kept' bad' : ℕ) (nodes later : List CanonicalNode)
    → Accounts r s kept bad nodes
    → Accounts s t kept' bad' later
    → Accounts r t (kept + kept') (bad + bad') (nodes ++ later)
Accounts-trans r s t kept bad kept' bad' nodes later a b =
    let long = length-append nodes later in
    record {
      added =
          b.added ∙ ap (λ xs. xs ++ later) a.added ∙ append_assoc r.successful_nodes nodes later;
      nodes_counted = omega (arith, long, a.nodes_counted, b.nodes_counted);
      failures_counted = omega (arith, a.failures_counted, b.failures_counted);
    }

-- ===== src/Parser/Report.antt =====
-- crates/parser/src/lib.rs: what the report of an import counts.
use yarisugi.Prelude.{
  ℕ, suc, ◌+◌, ◌≡◌, refl, sym, Bool, true, false, List, [], ◌∷◌, ◌++◌, arith, ltb, length,
  if◌then◌else◌,
}
use yarisugi.Ir.Node.{CanonicalNode, CanonicalHash}
use yarisugi.Parser.Ingest.{
  Parsed, parsed, refused, IngestionReport, max_failures, has_hash, Formats, record_failure,
  scan_one, scan,
}
use yarisugi.Prelude.{◌⊎◌, inl, inr, ◌||◌, All}
use yarisugi.Prelude.Ordered.{All-map}
use yarisugi.Parser.Format.{same_text}
use yarisugi.Parser.Kept.{
  kept_of, bad_of, nodes_among, refusals_among, IsKnown, IsKept, or-left, same_text_refl,
  IsKept-append, IsKept-later,
}
use yarisugi.Parser.Accounts.{AreFresh, Accounts, append_nil, refused-Accounts, Accounts-trans}

-- A node whose hash a later step has not seen was added, or was seen before.
pub record Scans (report : IngestionReport) (seen : List CanonicalHash)
    (result : Parsed CanonicalNode) (next : IngestionReport × List CanonicalHash) : Type 0 where
  pub nodes : List CanonicalNode
  pub accounts : Accounts report next.0 (kept_of result) (bad_of result) nodes
  pub fresh : (later : List CanonicalNode) → AreFresh next.1 later → AreFresh seen (nodes ++ later)
  pub kept : IsKept seen nodes result
  pub known : (hash : CanonicalHash) → has_hash hash next.1 ≡ true → IsKnown seen nodes hash

parsed-Scans :
    (report : IngestionReport) (seen : List CanonicalHash) (node : CanonicalNode) (known : Bool)
    → has_hash node.hash seen ≡ known
    → Scans report seen (parsed node) (
        if known
        then (record report { duplicates_omitted = report.duplicates_omitted + 1 }, seen)
        else (
          record report { successful_nodes = report.successful_nodes ++ (node ∷ []) },
          node.hash ∷ seen,
        ))
parsed-Scans report seen node true h = record {
  nodes = [];
  accounts = record {
    added = sym (append_nil report.successful_nodes);
    nodes_counted = omega arith;
    failures_counted = omega arith;
  };
  fresh = λ later fresh. fresh;
  kept = inr h;
  known = λ hash has. inr has;
}
parsed-Scans report seen node false h = record {
  nodes = node ∷ [];
  accounts = record { added = refl; nodes_counted = omega arith; failures_counted = omega arith };
  fresh = λ later fresh. (h, fresh);
  kept = inl (or-left _ _ (same_text_refl node.hash));
  known = λ hash has. first_or_seen hash (same_text node.hash hash) has;
}
  where
    first_or_seen :
        (hash : CanonicalHash) (test : Bool)
        → (test || has_hash hash seen) ≡ true
        → ((test || false) ≡ true) ⊎ (has_hash hash seen ≡ true)
    first_or_seen hash true has = inl refl
    first_or_seen hash false has = inr has

either-ap :
    {A : Type 0} (f : A → ℕ) (total : ℕ) (test : Bool) (x y : A)
    → f x ≡ total
    → f y ≡ total
    → f (if test then x else y) ≡ total
either-ap f total true x y h g = h
either-ap f total false x y h g = g

module _ (formats : Formats) where
  scan_one-Scans :
      (report : IngestionReport) (seen : List CanonicalHash) (index line_number : ℕ) (raw : List ℕ)
      (result : Parsed CanonicalNode)
      → Scans report seen result (scan_one formats report seen index line_number raw result)
  unfolding scan_one record_failure
  scan_one-Scans report seen index line_number raw (refused reason) = record {
    nodes = [];
    accounts = refused-Accounts report _ _ refl;
    fresh = λ later fresh. fresh;
    kept = tt;
    known = λ hash has. inr has;
  }
  scan_one-Scans report seen index line_number raw (parsed node) =
      parsed-Scans report seen node (has_hash node.hash seen) refl

  -- A result is counted where it is scanned.
  counted_one :
      (report r : IngestionReport) (kept bad : ℕ) (nodes : List CanonicalNode)
      → Accounts
          (record report { total_entries_scanned = report.total_entries_scanned + 1 })
          r
          kept
          bad
          nodes
      → Accounts report r kept bad nodes
  counted_one report r kept bad nodes a = record {
    added = a.added;
    nodes_counted = a.nodes_counted;
    failures_counted = a.failures_counted;
  }

  scan_one-total :
      (report : IngestionReport) (seen : List CanonicalHash) (index line_number : ℕ) (raw : List ℕ)
      (result : Parsed CanonicalNode)
      → (scan_one formats report seen index line_number raw result).0.total_entries_scanned
        ≡ report.total_entries_scanned
  unfolding scan_one record_failure
  scan_one-total report seen index line_number raw (refused reason) =
      either-ap {A = IngestionReport} (λ r. r.total_entries_scanned) report.total_entries_scanned
        (ltb (length report.failed_entries) max_failures) _ report refl refl
  scan_one-total report seen index line_number raw (parsed node) =
      either-ap {A = IngestionReport × List CanonicalHash} (λ next. next.0.total_entries_scanned)
        report.total_entries_scanned (has_hash node.hash seen) (_, seen) (_, node.hash ∷ seen) refl
        refl

  pub scan-Accounts :
      (report : IngestionReport) (seen : List CanonicalHash) (index : ℕ)
      (results : List (ℕ × (List ℕ × Parsed CanonicalNode)))
      → (nodes : List CanonicalNode) × Accounts report
          (scan formats report seen index results)
          (nodes_among results)
          (refusals_among results)
          nodes
        × AreFresh seen nodes
        × All (λ entry. IsKept seen nodes entry.1.1) results
        × ((scan formats report seen index results).total_entries_scanned
            ≡ report.total_entries_scanned + length results)
  unfolding scan
  scan-Accounts report seen index [] = (
    [],
    record {
      added = sym (append_nil report.successful_nodes);
      nodes_counted = omega arith;
      failures_counted = omega arith;
    },
    tt,
    tt,
    omega arith,
  )
  scan-Accounts report seen index ((line_number, (raw, result)) ∷ rest) =
      let c = record report { total_entries_scanned = report.total_entries_scanned + 1 } in
      let next = scan_one formats c seen index line_number raw result in
      let step = scan_one-Scans c seen index line_number raw result in
      let (later, accounts, fresh, kept, total) = scan-Accounts next.0 next.1 (suc index) rest in
      let same = scan_one-total c seen index line_number raw result in
      (
        step.nodes ++ later,
        Accounts-trans report next.0 _ (kept_of result) (bad_of result) (nodes_among rest)
            (refusals_among rest) step.nodes later
            (counted_one report next.0 (kept_of result) (bad_of result) step.nodes step.accounts)
            accounts,
        step.fresh later fresh,
        (
          IsKept-append seen step.nodes later result step.kept,
          All-map _ _ rest (λ entry. IsKept-later seen next.1 step.nodes later entry.1.1 step.known)
              kept,
        ),
        omega (arith, total, same),
      )

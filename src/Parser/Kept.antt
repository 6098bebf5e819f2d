-- ===== src/Parser/Kept.antt =====
-- crates/parser/src/lib.rs: how many of the results are nodes, and which of these are kept.
use yarisugi.Prelude.{
  ℕ, ◌+◌, ◌≡◌, refl, ◌⊎◌, inl, inr, Bool, true, false, ◌||◌, List, [], ◌∷◌, ◌++◌, arith, ==_iff,
  length,
}
use yarisugi.Ir.Hosts.{Text}
use yarisugi.Ir.Node.{CanonicalNode, CanonicalHash}
use yarisugi.Parser.Format.{same_text}
use yarisugi.Parser.Ingest.{Parsed, parsed, refused, has_hash}

-- Results that are nodes, and results that are refused.
abbrev pub kept_of : Parsed CanonicalNode → ℕ
kept_of (parsed node) = 1
kept_of (refused reason) = 0

abbrev pub bad_of : Parsed CanonicalNode → ℕ
bad_of (parsed node) = 0
bad_of (refused reason) = 1

abbrev pub nodes_among : List (ℕ × (List ℕ × Parsed CanonicalNode)) → ℕ
nodes_among [] = 0
nodes_among (entry ∷ rest) = kept_of entry.1.1 + nodes_among rest

abbrev pub refusals_among : List (ℕ × (List ℕ × Parsed CanonicalNode)) → ℕ
refusals_among [] = 0
refusals_among (entry ∷ rest) = bad_of entry.1.1 + refusals_among rest

one_of_both : (result : Parsed CanonicalNode) → kept_of result + bad_of result ≡ 1
one_of_both (parsed node) = refl
one_of_both (refused reason) = refl

pub nodes_among-refusals_among :
    (results : List (ℕ × (List ℕ × Parsed CanonicalNode)))
    → nodes_among results + refusals_among results ≡ length results
nodes_among-refusals_among [] = refl
nodes_among-refusals_among (entry ∷ rest) =
    omega (arith, one_of_both entry.1.1, nodes_among-refusals_among rest)

abbrev pub hashes : List CanonicalNode → List CanonicalHash
hashes [] = []
hashes (node ∷ nodes) = node.hash ∷ hashes nodes

-- One of the nodes has the hash, or it was seen before.
abbrev pub IsKnown : List CanonicalHash → List CanonicalNode → CanonicalHash → Type 0
IsKnown seen nodes hash = (has_hash hash (hashes nodes) ≡ true) ⊎ (has_hash hash seen ≡ true)

abbrev pub IsKept : List CanonicalHash → List CanonicalNode → Parsed CanonicalNode → Type 0
IsKept seen nodes (parsed node) = IsKnown seen nodes node.hash
IsKept seen nodes (refused reason) = Unit

pub or-left : (a b : Bool) → a ≡ true → (a || b) ≡ true
or-left true b h = refl
or-left false b h = cc

or-right : (a b : Bool) → b ≡ true → (a || b) ≡ true
or-right true b h = refl
or-right false b h = h

pub same_text_refl : (text : Text) → same_text text text ≡ true
same_text_refl [] = refl
same_text_refl (c ∷ cs) = rw ((==_iff c c).1 refl) (same_text_refl cs)

has_hash-after :
    (hash : CanonicalHash) (nodes later : List CanonicalNode)
    → has_hash hash (hashes later) ≡ true
    → has_hash hash (hashes (nodes ++ later)) ≡ true
has_hash-after hash [] later h = h
has_hash-after hash (node ∷ nodes) later h =
    or-right (same_text node.hash hash) _ (has_hash-after hash nodes later h)

has_hash-before :
    (hash : CanonicalHash) (nodes later : List CanonicalNode)
    → has_hash hash (hashes nodes) ≡ true
    → has_hash hash (hashes (nodes ++ later)) ≡ true
has_hash-before hash [] later h = cc
has_hash-before hash (node ∷ nodes) later h =
    either (same_text node.hash hash) h (has_hash-before hash nodes later)
  where
    either :
        (test : Bool)
        → (test || has_hash hash (hashes nodes)) ≡ true
        → (has_hash hash (hashes nodes) ≡ true → has_hash hash (hashes (nodes ++ later)) ≡ true)
        → (test || has_hash hash (hashes (nodes ++ later))) ≡ true
    either true g further = refl
    either false g further = further g

IsKnown-append :
    (seen : List CanonicalHash) (nodes later : List CanonicalNode) (hash : CanonicalHash)
    → IsKnown seen nodes hash
    → IsKnown seen (nodes ++ later) hash
IsKnown-append seen nodes later hash (inl h) = inl (has_hash-before hash nodes later h)
IsKnown-append seen nodes later hash (inr h) = inr h

pub IsKept-append :
    (seen : List CanonicalHash) (nodes later : List CanonicalNode) (result : Parsed CanonicalNode)
    → IsKept seen nodes result
    → IsKept seen (nodes ++ later) result
IsKept-append seen nodes later (parsed node) h = IsKnown-append seen nodes later node.hash h
IsKept-append seen nodes later (refused reason) h = tt

-- A result that a later step keeps.
pub IsKept-later :
    (seen next : List CanonicalHash) (nodes later : List CanonicalNode)
    (result : Parsed CanonicalNode)
    → ((hash : CanonicalHash) → has_hash hash next ≡ true → IsKnown seen nodes hash)
    → IsKept next later result
    → IsKept seen (nodes ++ later) result
IsKept-later seen next nodes later (parsed node) known (inl h) =
    inl (has_hash-after node.hash nodes later h)
IsKept-later seen next nodes later (parsed node) known (inr h) =
    IsKnown-append seen nodes later node.hash (known node.hash h)
IsKept-later seen next nodes later (refused reason) known h = tt

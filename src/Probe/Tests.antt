-- ===== src/Probe/Tests.antt =====
-- Grades of connections and walks over attributes, and the theorems on them at concrete inputs.
use yarisugi.Prelude.{
  ℕ, zero, suc, ◌+◌, ◌*◌, ◌≤◌, ◌≡◌, refl, arith, List, [], ◌∷◌, ◌++◌, Option, none, some, ◌⊎◌,
  length,
}
use yarisugi.Probe.Health.{TcpStats, default_thresholds, health_grade}
use yarisugi.Probe.Attributes.{walk}
use yarisugi.Probe.Rounds.{StaysAt, walk-ends}
use yarisugi.Probe.Grades.{IsWorse, health_grade-IsWorse}

abbrev calm : TcpStats
calm = record { rtt_ms = 1500; rtt_var_ms = 10; retransmits = 1; total_retrans = 13; unacked = 3 }

abbrev poor : TcpStats
poor = record calm { rtt_ms = 9000; total_retrans = 40; unacked = 70 }

-- The product wraps at this number of retransmissions: the connection has lost less of its grade than
-- one with 40.
abbrev wrapped : TcpStats
wrapped = record poor { total_retrans = 858993472 }

calm_grade : health_grade calm default_thresholds ≡ 92
unfolding health_grade default_thresholds
calm_grade = refl

poor_grade : health_grade poor default_thresholds ≡ 20
unfolding health_grade default_thresholds
poor_grade = refl

wrapped_grade : health_grade wrapped default_thresholds ≡ 46
unfolding health_grade default_thresholds
wrapped_grade = refl

worse : IsWorse calm poor
worse = record {
  rtt = omega arith;
  retransmits = omega arith;
  total = omega arith;
  backlog = omega arith;
}

health_grade-IsWorse_example :
    (health_grade poor default_thresholds ≤ health_grade calm default_thresholds)
    × (health_grade calm default_thresholds ≤ 100)
unfolding default_thresholds
health_grade-IsWorse_example = health_grade-IsWorse calm poor default_thresholds worse (omega arith)

-- The bytes of an attribute's header, on a machine that has the low byte first.
abbrev little_endian : ℕ → ℕ → ℕ
little_endian low high = low + high * 256

-- A short attribute, and one of no length, on which the walk stays.
abbrev one_attribute : List ℕ
one_attribute = 5 ∷ 0 ∷ 2 ∷ 0 ∷ 7 ∷ 0 ∷ 0 ∷ 0 ∷ []

abbrev no_length : List ℕ
no_length = 0 ∷ 0 ∷ 9 ∷ 0 ∷ []

one_found : walk little_endian 9 one_attribute ≡ some (some (7 ∷ []))
unfolding walk
one_found = refl

never_found : (rounds : ℕ) → walk little_endian rounds no_length ≡ none
unfolding walk
never_found zero = refl
never_found (suc rounds) = never_found rounds

walk-ends_example :
    ((found : Option (List ℕ)) × ((extra : ℕ)
        → walk little_endian (suc (length one_attribute) + extra) one_attribute ≡ some found))
    ⊎ (((before stuck : List ℕ) × (before ++ stuck ≡ one_attribute) × StaysAt little_endian stuck)
        × ((rounds : ℕ) → walk little_endian rounds one_attribute ≡ none))
walk-ends_example = walk-ends little_endian one_attribute

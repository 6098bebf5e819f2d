-- ===== src/Probe/Grades.antt =====
-- crates/probe/src/socket_health.rs, `health_grade`: a worse connection has no better grade.
use yarisugi.Prelude.{ℕ, ◌-◌, ◌*◌, ◌^◌, ◌≤◌, ◌<◌, arith}
use yarisugi.Probe.Health.{
  TcpStats, HealthThresholds, rtt_penalty, retrans_penalty, penalty_from, health_grade,
}

-- Each number that the grade reads is at least as large.
pub record IsWorse (s t : TcpStats) : Type 0 where
  pub rtt : s.rtt_ms ≤ t.rtt_ms
  pub retransmits : s.retransmits ≤ t.retransmits
  pub total : s.total_retrans ≤ t.total_retrans
  pub backlog : s.unacked ≤ t.unacked

rtt_penalty-le : (limit a b : ℕ) → a ≤ b → rtt_penalty limit a ≤ rtt_penalty limit b
unfolding rtt_penalty
rtt_penalty-le limit a b h = ground arith

retrans_penalty-le :
    (limit a b : ℕ)
    → a ≤ b
    → (b - limit) * 5 < 2 ^ 32
    → retrans_penalty limit a ≤ retrans_penalty limit b
unfolding retrans_penalty
retrans_penalty-le limit a b h small = ground arith

penalty_from-le :
    (limit penalty a b : ℕ) → a ≤ b → penalty_from limit penalty a ≤ penalty_from limit penalty b
unfolding penalty_from
penalty_from-le limit penalty a b h = ground arith

-- A grade is at most 100, and a connection with longer times, more retransmissions and a longer backlog
-- has no better grade than another, as long as the product of the retransmissions beyond the threshold
-- with 5 fits 32 bits.
pub health_grade-IsWorse :
    (s t : TcpStats) (thresholds : HealthThresholds)
    → IsWorse s t
    → (t.total_retrans - thresholds.retransmit_total) * 5 < 2 ^ 32
    → (health_grade t thresholds ≤ health_grade s thresholds) × (health_grade s thresholds ≤ 100)
unfolding health_grade
health_grade-IsWorse s t thresholds worse small =
    let a = rtt_penalty-le thresholds.rtt_degrade_ms s.rtt_ms t.rtt_ms worse.rtt in
    let b =
      penalty_from-le thresholds.retransmit_spike 30 s.retransmits t.retransmits
        worse.retransmits in
    let c =
      retrans_penalty-le thresholds.retransmit_total s.total_retrans t.total_retrans worse.total
        small in
    let d = penalty_from-le thresholds.unacked_backlog 20 s.unacked t.unacked worse.backlog in
    (omega (arith, a, b, c, d), omega arith)

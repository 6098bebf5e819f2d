-- ===== src/Probe/Health.antt =====
-- crates/probe/src/socket_health.rs: a sample of a connection, and its grade.
use yarisugi.Prelude.{ℕ, ◌-◌, ◌*◌, ◌/◌, ◌%◌, ◌^◌, min, leb, if◌then◌else◌}

pub record TcpStats : Type 0 where
  pub rtt_ms : ℕ
  pub rtt_var_ms : ℕ
  pub retransmits : ℕ
  pub total_retrans : ℕ
  pub unacked : ℕ

-- What is read of the kernel's `tcp_info`; the times are in microseconds.
pub record TcpInfo : Type 0 where
  pub tcpi_rtt : ℕ
  pub tcpi_rttvar : ℕ
  pub tcpi_retransmits : ℕ
  pub tcpi_total_retrans : ℕ
  pub tcpi_unacked : ℕ

unfoldable pub parse_tcp_info : TcpInfo → TcpStats
parse_tcp_info info = record {
  rtt_ms = info.tcpi_rtt / 1000;
  rtt_var_ms = info.tcpi_rttvar / 1000;
  retransmits = info.tcpi_retransmits;
  total_retrans = info.tcpi_total_retrans;
  unacked = info.tcpi_unacked;
}

pub record HealthThresholds : Type 0 where
  pub rtt_degrade_ms : ℕ
  pub retransmit_spike : ℕ
  pub retransmit_total : ℕ
  pub unacked_backlog : ℕ

unfoldable pub default_thresholds : HealthThresholds
default_thresholds = record {
  rtt_degrade_ms = 1200;
  retransmit_spike = 5;
  retransmit_total = 12;
  unacked_backlog = 64;
}

unfoldable pub rtt_penalty : ℕ → ℕ → ℕ
rtt_penalty limit rtt_ms = if leb limit rtt_ms then min (min (rtt_ms - limit) 3000 / 100) 40 else 0

-- The product is one of 32 bits, which a release build wraps.
unfoldable pub retrans_penalty : ℕ → ℕ → ℕ
retrans_penalty limit total_retrans =
    if leb limit total_retrans then min ((total_retrans - limit) * 5 % 2 ^ 32) 30 else 0

-- A fixed penalty from a threshold on.
unfoldable pub penalty_from : ℕ → ℕ → ℕ → ℕ
penalty_from limit penalty value = if leb limit value then penalty else 0

-- The score is an `i32` that is clamped to 0 and 100 at the end: it never rises, so that a subtraction
-- that stops at 0 gives the same.
unfoldable pub health_grade : TcpStats → HealthThresholds → ℕ
unfolding rtt_penalty retrans_penalty penalty_from
health_grade stats thresholds =
    100
    - rtt_penalty thresholds.rtt_degrade_ms stats.rtt_ms
    - penalty_from thresholds.retransmit_spike 30 stats.retransmits
    - retrans_penalty thresholds.retransmit_total stats.total_retrans
    - penalty_from thresholds.unacked_backlog 20 stats.unacked

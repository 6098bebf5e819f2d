-- ===== src/Adapter/Targets.antt =====
-- crates/adapter/src/egress.rs: the targets of an egress check, and what a trial is told.
use yarisugi.Prelude.{ℕ, Bool, true, false, List, [], ◌∷◌, Option, none, some, String}

pub record EgressTarget : Type 0 where
  pub tag : String
  pub host : String
  pub path : String
  pub port : ℕ
  pub tls : Bool
  pub expect_status : ℕ
  pub expect_body_contains : Option String
  pub quorum : Bool

-- A timeout is a number of nanoseconds.
pub record ScatterConfig : Type 0 where
  pub operators : List EgressTarget
  pub real_sites : List EgressTarget
  pub real_count : ℕ
  pub min_verified : ℕ
  pub timeout : ℕ
  pub max_concurrency : ℕ

pub record TargetCheck : Type 0 where
  pub tag : String
  pub verified : Bool
  pub latency : ℕ
  pub status : ℕ
  pub detail : String

pub record ScatterReport : Type 0 where
  pub checks : List TargetCheck
  pub verified : ℕ
  pub total : ℕ
  pub quorum_verified : ℕ
  pub passes : Bool

abbrev pub egress_targets : List EgressTarget
egress_targets =
    record {
      tag = "cloudflare";
      host = "cp.cloudflare.com";
      path = "/generate_204";
      port = 80;
      tls = false;
      expect_status = 204;
      expect_body_contains = none;
      quorum = true;
    }
    ∷ record {
      tag = "google";
      host = "www.gstatic.com";
      path = "/generate_204";
      port = 80;
      tls = false;
      expect_status = 204;
      expect_body_contains = none;
      quorum = true;
    }
    ∷ record {
      tag = "microsoft";
      host = "www.msftconnecttest.com";
      path = "/connecttest.txt";
      port = 80;
      tls = false;
      expect_status = 200;
      expect_body_contains = some "Microsoft Connect Test";
      quorum = true;
    }
    ∷ record {
      tag = "ubuntu";
      host = "connectivity-check.ubuntu.com";
      path = "/";
      port = 80;
      tls = false;
      expect_status = 204;
      expect_body_contains = none;
      quorum = true;
    }
    ∷ record {
      tag = "debian";
      host = "network-test.debian.org";
      path = "/nm";
      port = 80;
      tls = false;
      expect_status = 200;
      expect_body_contains = some "NetworkManager is online";
      quorum = true;
    }
    ∷ record {
      tag = "gnome";
      host = "nmcheck.gnome.org";
      path = "/check_network_status.txt";
      port = 80;
      tls = false;
      expect_status = 200;
      expect_body_contains = some "NetworkManager is online";
      quorum = true;
    }
    ∷ record {
      tag = "apple";
      host = "captive.apple.com";
      path = "/hotspot-detect.html";
      port = 80;
      tls = false;
      expect_status = 200;
      expect_body_contains = some "Success";
      quorum = true;
    }
    ∷ record {
      tag = "xiaomi";
      host = "connect.rom.miui.com";
      path = "/generate_204";
      port = 80;
      tls = false;
      expect_status = 204;
      expect_body_contains = none;
      quorum = true;
    }
    ∷ record {
      tag = "firefox";
      host = "detectportal.firefox.com";
      path = "/success.txt";
      port = 443;
      tls = true;
      expect_status = 200;
      expect_body_contains = some "success";
      quorum = true;
    }
    ∷ []

abbrev pub real_site_targets : List EgressTarget
real_site_targets =
    record {
      tag = "wikipedia";
      host = "www.wikipedia.org";
      path = "/";
      port = 443;
      tls = true;
      expect_status = 200;
      expect_body_contains = none;
      quorum = false;
    }
    ∷ record {
      tag = "github";
      host = "github.com";
      path = "/";
      port = 443;
      tls = true;
      expect_status = 200;
      expect_body_contains = none;
      quorum = false;
    }
    ∷ record {
      tag = "rust-lang";
      host = "www.rust-lang.org";
      path = "/";
      port = 443;
      tls = true;
      expect_status = 200;
      expect_body_contains = none;
      quorum = false;
    }
    ∷ record {
      tag = "mozilla";
      host = "www.mozilla.org";
      path = "/";
      port = 443;
      tls = true;
      expect_status = 200;
      expect_body_contains = none;
      quorum = false;
    }
    ∷ record {
      tag = "python";
      host = "www.python.org";
      path = "/";
      port = 443;
      tls = true;
      expect_status = 200;
      expect_body_contains = none;
      quorum = false;
    }
    ∷ record {
      tag = "kernel";
      host = "www.kernel.org";
      path = "/";
      port = 443;
      tls = true;
      expect_status = 200;
      expect_body_contains = none;
      quorum = false;
    }
    ∷ record {
      tag = "archlinux";
      host = "archlinux.org";
      path = "/";
      port = 443;
      tls = true;
      expect_status = 200;
      expect_body_contains = none;
      quorum = false;
    }
    ∷ record {
      tag = "nginx";
      host = "www.nginx.org";
      path = "/";
      port = 443;
      tls = true;
      expect_status = 200;
      expect_body_contains = none;
      quorum = false;
    }
    ∷ []

unfoldable pub default_scatter : ScatterConfig
default_scatter = record {
  operators = egress_targets;
  real_sites = real_site_targets;
  real_count = 2;
  min_verified = 2;
  timeout = 10000000000;
  max_concurrency = 8;
}

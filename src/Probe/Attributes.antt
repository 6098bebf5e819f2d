-- ===== src/Probe/Attributes.antt =====
-- crates/probe/src/socket_health.rs, `collect_message`: the walk over the attributes of a reply. What is
-- left of the payload stands for the offset in it.
use yarisugi.Prelude.{
  ℕ, zero, suc, ◌+◌, ◌-◌, ◌*◌, ◌/◌, List, [], ◌∷◌, ◌++◌, Option, none, some, ltb, ◌==◌, not, length,
  take, drop, get_elem?, if◌then◌else◌,
}
use yarisugi.Probe.Health.{TcpStats, TcpInfo, parse_tcp_info}

abbrev pub inet_diag_info : ℕ
inet_diag_info = 2

abbrev pub tcp_established : ℕ
tcp_established = 1

abbrev pub nlmsg_alignto : ℕ
nlmsg_alignto = 4

-- The mask clears the two lowest bits.
unfoldable pub nlmsg_align : ℕ → ℕ
nlmsg_align len = (len + nlmsg_alignto - 1) / nlmsg_alignto * nlmsg_alignto

-- The size of `InetDiagMsg`: four bytes, a socket id of 48, and five numbers of 32 bits.
abbrev pub message_size : ℕ
message_size = 72

-- What one attribute makes of the walk: an end, with the data of the telemetry if it is there, or the
-- rest of the payload.
pub data Step : Type 0 where
  done : Option (List ℕ) → Step
  onward : List ℕ → Step

-- `u16::from_ne_bytes` depends on the machine.
module _ (from_ne_bytes : ℕ → ℕ → ℕ) where
  unfoldable pub attribute_step : List ℕ → Step
  unfolding nlmsg_align
  attribute_step (a ∷ b ∷ c ∷ d ∷ data_bytes) =
      let attr_len = from_ne_bytes a b in
      if ltb (length data_bytes) (attr_len - 4)
      then done none
      else if from_ne_bytes c d == inet_diag_info
      then done (some (take (attr_len - 4) data_bytes))
      else onward (drop (nlmsg_align attr_len) (a ∷ b ∷ c ∷ d ∷ data_bytes))
  attribute_step _ = done none

  -- The loop, for a number of rounds; `none` where they are not enough.
  unfoldable pub walk : ℕ → List ℕ → Option (Option (List ℕ))
  unfolding attribute_step
  walk zero rest = none
  walk (suc n) rest = elim (attribute_step rest) [
    | done found ↦ some found
    | onward later ↦ walk n later
  ]

  -- The message's second byte is its state. The bytes of the telemetry are read as the kernel's structure.
  unfoldable pub collect_message :
      (List ℕ → TcpInfo) → ℕ → List ℕ → List TcpStats → Option (List TcpStats)
  unfolding walk parse_tcp_info
  collect_message read_info rounds payload stats =
      if ltb (length payload) message_size then some stats else elim (get_elem? payload 1) [
        | none ↦ some stats
        | some state ↦
            if not (state == tcp_established)
            then some stats
            else elim (walk rounds (drop (nlmsg_align message_size) payload)) [
              | none ↦ none
              | some none ↦ some stats
              | some (some bytes) ↦ some (stats ++ (parse_tcp_info (read_info bytes) ∷ []))
            ]
      ]

-- ===== src/Netd/Ruleset.antt =====
-- crates/netd/src/netfilter.rs, `render_ruleset` and `cidr_set`: the text of the nftables ruleset,
-- line by line, and the sets of bypassed networks.
use Prim.Native.String.{◌++◌ as str_append}
use text.Mathlib.TextEquality.{eq_iff}
use yarisugi.Prelude.{
  ℕ, ◌≡◌, ◌⊎◌, inl, inr, ◌↔◌, true, List, [], ◌∷◌, ◌++◌, Option, none, some, String, arith,
  Bool-cases,
}
use yarisugi.Prelude.Text.{to_string, to_hex}
use yarisugi.Netd.Config.{TProxySettings}
use yarisugi.Netd.Netfilter.{contains, push_missing, cidr_set, local_bypass_v4, local_bypass_v6}

-- A text of several parts.
unfoldable pub concat : List String → String
concat [] = ""
concat (x ∷ xs) = str_append x (concat xs)

unfoldable pub mark_return : String → String
unfolding concat
mark_return mark = concat ("\t\tmeta mark " ∷ mark ∷ " return" ∷ [])

unfoldable pub dns_intercept : String → String
unfolding concat
dns_intercept mark =
    concat ("\t\tmeta l4proto { tcp, udp } th dport 53 meta mark set " ∷ mark ∷ " accept" ∷ [])

unfoldable pub uid_bypass : Option ℕ → List String
unfolding concat
uid_bypass none = []
uid_bypass (some uid) = concat ("\t\tmeta skuid " ∷ to_string uid ∷ " return" ∷ []) ∷ []

abbrev pub bypass_v4_return : String
bypass_v4_return = "\t\tip daddr @bypass_v4 return"

abbrev pub bypass_v6_return : String
bypass_v6_return = "\t\tip6 daddr @bypass_v6 return"

unfoldable pub set_lines : String → String → String → List String
unfolding concat
set_lines name kind elements =
    concat ("\tset " ∷ name ∷ " {" ∷ [])
    ∷ concat ("\t\ttype " ∷ kind ∷ [])
    ∷ "\t\tflags interval"
    ∷ concat ("\t\telements = { " ∷ elements ∷ " }" ∷ [])
    ∷ "\t}"
    ∷ []

unfoldable pub prerouting_lines : TProxySettings → List String
unfolding concat mark_return
prerouting_lines settings =
    let mark = to_hex settings.proxy_fwmark in
    "\tchain prerouting {"
    ∷ "\t\ttype filter hook prerouting priority mangle; policy accept;"
    ∷ bypass_v4_return
    ∷ bypass_v6_return
    ∷ mark_return mark
    ∷ concat (
        "\t\tmeta l4proto { tcp, udp } tproxy to :"
        ∷ to_string settings.tproxy_port
        ∷ " meta mark set "
        ∷ mark
        ∷ " accept"
        ∷ [])
    ∷ "\t}"
    ∷ []

unfoldable pub output_lines : TProxySettings → List String
unfolding concat mark_return dns_intercept uid_bypass
output_lines settings =
    let mark = to_hex settings.proxy_fwmark in
    "\tchain output {"
    ∷ "\t\ttype route hook output priority mangle; policy accept;"
    ∷ mark_return mark
    ∷ dns_intercept mark
    ∷ (uid_bypass settings.core_uid
        ++ (bypass_v4_return
            ∷ bypass_v6_return
            ∷ concat ("\t\tmeta l4proto { tcp, udp } meta mark set " ∷ mark ∷ " accept" ∷ [])
            ∷ "\t}"
            ∷ []))

unfoldable pub ruleset_lines : TProxySettings → List String
unfolding set_lines prerouting_lines output_lines
ruleset_lines settings =
    "table inet myproxy {"
    ∷ (set_lines "bypass_v4" "ipv4_addr" (cidr_set settings.bypass_subnets local_bypass_v4)
        ++ (set_lines "bypass_v6" "ipv6_addr" (cidr_set settings.bypass_subnets_v6 local_bypass_v6)
            ++ (prerouting_lines settings ++ (output_lines settings ++ ("}" ∷ [])))))

-- Each line ends in a newline.
unfoldable pub unlines : List String → String
unlines [] = ""
unlines (x ∷ xs) = str_append x (str_append "\n" (unlines xs))

unfoldable pub render_ruleset : TProxySettings → String
unfolding ruleset_lines unlines
render_ruleset settings = unlines (ruleset_lines settings)

-- Membership by recursion.
abbrev pub Has : String → List String → Type 0
Has a [] = ⊥
Has a (x ∷ xs) = (x ≡ a) ⊎ Has a xs

abbrev pub AreDistinct : List String → Type 0
AreDistinct [] = Unit {0}
AreDistinct (x ∷ xs) = (¬ Has x xs) × AreDistinct xs

contains_iff : (xs : List String) (a : String) → (contains xs a ≡ true) ↔ Has a xs
unfolding contains
contains_iff [] a = (λ h. cc, λ h. absurd h)
contains_iff (x ∷ xs) a = ground (arith, eq_iff x a, contains_iff xs a)

Has-append : (a : String) (xs ys : List String) → Has a (xs ++ ys) ↔ (Has a xs ⊎ Has a ys)
Has-append a [] ys = (λ h. inr h, elim [ inl h ↦ absurd h | inr h ↦ h ])
Has-append a (x ∷ xs) ys = ground (arith, Has-append a xs ys)

AreDistinct-push :
    (xs : List String) (a : String) → AreDistinct xs → ¬ Has a xs → AreDistinct (xs ++ (a ∷ []))
AreDistinct-push [] a d h = ground arith
AreDistinct-push (x ∷ xs) a d h = ground (arith, AreDistinct-push xs a, Has-append x xs (a ∷ []))

-- The bypass set that a ruleset carries holds a network exactly when it is a default or was
-- configured.
pub push_missing-Has :
    (configured defaults : List String) (a : String)
    → Has a (push_missing defaults configured) ↔ (Has a defaults ⊎ Has a configured)
unfolding push_missing
push_missing-Has [] defaults a = (λ h. inl h, elim [ inl h ↦ h | inr h ↦ absurd h ])
push_missing-Has (c ∷ configured) defaults a = elim (Bool-cases (contains defaults c)) [
  | inl old ↦
      rw old
        (ground (arith, push_missing-Has configured defaults a, (contains_iff defaults c).0 old))
  | inr new ↦ rw new (
      ground (
        arith,
        push_missing-Has configured (defaults ++ (c ∷ [])) a,
        Has-append a defaults (c ∷ []),
      ))
]

-- The bypass set that a ruleset carries holds no network twice, if the defaults do not.
pub push_missing-AreDistinct :
    (configured defaults : List String)
    → AreDistinct defaults
    → AreDistinct (push_missing defaults configured)
unfolding push_missing
push_missing-AreDistinct [] defaults d = d
push_missing-AreDistinct (c ∷ configured) defaults d = elim (Bool-cases (contains defaults c)) [
  | inl old ↦ rw old (push_missing-AreDistinct configured defaults d)
  | inr new ↦ rw new (
      push_missing-AreDistinct configured (defaults ++ (c ∷ []))
        (AreDistinct-push defaults c d (λ h. cc (new, (contains_iff defaults c).1 h))))
]

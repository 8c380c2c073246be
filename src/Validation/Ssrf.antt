-- ===== src/Validation/Ssrf.antt =====
-- internal/validation/ssrf_validator.go: which targets a run may have. `url.Parse`, `Hostname`,
-- `net.ParseIP` and `net.ParseCIDR` are arguments: what they answer. A report is the list of the issues
-- that were added to it, each by its code and its place. A host is a sequence of ASCII bytes. An
-- IPv4-mapped address of IPv6 is an IPv4 address here, as `To4` makes it one.
pub mod Ranges
pub mod Accepts
use mcpdrill.Prelude.{
  ℕ, ◌+◌, ◌*◌, ◌/◌, ◌%◌, ◌^◌, ◌++◌, List, [], ◌∷◌, Bool, true, false, not, ◌&&◌, ◌||◌, Option, none,
  some, ltb, leb, ◌==◌, if◌then◌else◌, map, Str, str_eq, codes,
}
use mcpdrill.Validation.Policy.{ends_with}
use mcpdrill.Validation.Ssrf.Ranges.{
  Ip, v4, v6, Range, contains, is_loopback, is_link_local_unicast, is_link_local_multicast,
  is_multicast, cidr4, cidr6, mapped_range,
}

pub data Code : Type 0 where
  schema_violation : Code
  invalid_url_scheme : Code
  user_info_blocked : Code
  ip_literal_blocked : Code
  localhost_blocked : Code
  link_local_blocked : Code
  metadata_ip_blocked : Code
  loopback_blocked : Code
  multicast_blocked : Code
  ipv4_mapped_blocked : Code
  nat64_blocked : Code
  documentation_ip_blocked : Code
  unique_local_blocked : Code
  private_address_blocked : Code
  redirect_policy_required : Code
  max_redirects_exceeded : Code

pub data Issue : Type 0 where
  error : Code → Str → Issue
  warning : Code → Str → Issue

abbrev pub is_error : Issue → Bool
is_error (error c p) = true
is_error (warning c p) = false

-- Whether a report has an error: else it is OK.
abbrev pub has_error : List Issue → Bool
has_error [] = false
has_error (i ∷ is) = is_error i || has_error is

abbrev pub target_url : Str
target_url = codes "/target/url"

-- The answer of `net.ParseCIDR` to each network that is allowed.
pub record SsrfValidator : Type 0 where
  pub allowed_private_ranges : List Range

abbrev parsed_ranges : List (Option Range) → List Range
parsed_ranges [] = []
parsed_ranges (none ∷ rs) = parsed_ranges rs
parsed_ranges (some r ∷ rs) = r ∷ parsed_ranges rs

unfoldable pub new_ssrf_validator : List (Option Range) → SsrfValidator
new_ssrf_validator rs = record { allowed_private_ranges = parsed_ranges rs }

unfoldable pub any_contains : List Range → Ip → Bool
any_contains [] ip = false
any_contains (r ∷ rs) ip = if contains r ip then true else any_contains rs ip

unfoldable pub is_private_network_allowed : SsrfValidator → Ip → Bool
unfolding any_contains
is_private_network_allowed v ip = any_contains v.allowed_private_ranges ip

unfoldable pub is_loopback_allowed : SsrfValidator → Bool
unfolding is_private_network_allowed
is_loopback_allowed v =
    if is_private_network_allowed v (v4 2130706433)
    then true
    else is_private_network_allowed v (v6 1)

unfoldable pub to_lower : Str → Str
to_lower [] = []
to_lower (c ∷ s) = (if leb 65 c && leb c 90 then c + 32 else c) ∷ to_lower s

pub record Url : Type 0 where
  pub scheme : Str
  pub has_user : Bool
  pub hostname : Str
  pub ip : Option Ip

unfoldable pub validate_scheme : Url → List Issue
unfolding to_lower
validate_scheme u =
    let scheme = to_lower u.scheme in
    if not (str_eq scheme (codes "http")) && not (str_eq scheme (codes "https"))
    then error invalid_url_scheme target_url ∷ []
    else []

unfoldable pub validate_user_info : Url → List Issue
validate_user_info u = if u.has_user then error user_info_blocked target_url ∷ [] else []

-- An issue for each range of a table that contains the address.
unfoldable pub blocked_by : List (Range × Code) → Ip → List Issue
blocked_by [] ip = []
blocked_by ((r, c) ∷ rs) ip =
    if contains r ip then error c target_url ∷ blocked_by rs ip else blocked_by rs ip

abbrev pub ipv4_ranges : List (Range × Code)
ipv4_ranges =
    (cidr4 127 0 0 0 8, loopback_blocked)
    ∷ (cidr4 169 254 0 0 16, link_local_blocked)
    ∷ (cidr4 169 254 169 254 32, metadata_ip_blocked)
    ∷ (cidr4 100 100 100 200 32, metadata_ip_blocked)
    ∷ (cidr4 192 0 0 0 24, private_address_blocked)
    ∷ (cidr4 0 0 0 0 8, private_address_blocked)
    ∷ []

abbrev pub rfc1918_ranges : List Range
rfc1918_ranges = cidr4 10 0 0 0 8 ∷ cidr4 172 16 0 0 12 ∷ cidr4 192 168 0 0 16 ∷ []

unfoldable pub rfc1918_issues : SsrfValidator → List Range → Ip → List Issue
unfolding is_private_network_allowed
rfc1918_issues v [] ip = []
rfc1918_issues v (r ∷ rs) ip =
    if contains r ip && not (is_private_network_allowed v ip)
    then error private_address_blocked target_url ∷ rfc1918_issues v rs ip
    else rfc1918_issues v rs ip

unfoldable pub validate_ipv4 : SsrfValidator → Ip → List Issue
unfolding blocked_by rfc1918_issues
validate_ipv4 v ip = blocked_by ipv4_ranges ip ++ rfc1918_issues v rfc1918_ranges ip

abbrev pub ipv6_ranges : List (Range × Code)
ipv6_ranges =
    (cidr6 0 0 0 0 0 0 0 1 128, loopback_blocked)
    ∷ (cidr6 0 0 0 0 0 0 0 0 128, private_address_blocked)
    ∷ (cidr6 0xfc00 0 0 0 0 0 0 0 7, unique_local_blocked)
    ∷ (cidr6 0xfe80 0 0 0 0 0 0 0 10, link_local_blocked)
    ∷ (cidr6 0xff00 0 0 0 0 0 0 0 8, multicast_blocked)
    ∷ (mapped_range, ipv4_mapped_blocked)
    ∷ (cidr6 0x64 0xff9b 0 0 0 0 0 0 96, nat64_blocked)
    ∷ (cidr6 0x2001 0xdb8 0 0 0 0 0 0 32, documentation_ip_blocked)
    ∷ []

-- The sixteen bytes begin as those of an IPv4-mapped address, and the last four of them.
abbrev mapped_issues : SsrfValidator → Ip → List Issue
mapped_issues v (v4 a) = []
mapped_issues v (v6 a) = if a / 2 ^ 32 == 65535 then validate_ipv4 v (v4 (a % 2 ^ 32)) else []

unfoldable pub validate_ipv6 : SsrfValidator → Ip → List Issue
unfolding blocked_by validate_ipv4
validate_ipv6 v ip = blocked_by ipv6_ranges ip ++ mapped_issues v ip

abbrev by_family : SsrfValidator → Ip → List Issue
by_family v (v4 a) = validate_ipv4 v (v4 a)
by_family v (v6 a) = validate_ipv6 v (v6 a)

unfoldable pub validate_ip_address : SsrfValidator → Ip → List Issue
unfolding validate_ipv4 validate_ipv6 is_private_network_allowed
validate_ip_address v ip =
    if is_private_network_allowed v ip
    then []
    else error ip_literal_blocked target_url
      ∷ ((if is_loopback ip then error loopback_blocked target_url ∷ [] else [])
          ++ ((if is_link_local_unicast ip || is_link_local_multicast ip
                then error link_local_blocked target_url ∷ []
                else [])
              ++ ((if is_multicast ip then error multicast_blocked target_url ∷ [] else [])
                  ++ by_family v ip)))

abbrev pub dot : Str → Str
dot s = b'.' ∷ s

-- One of the names of the local host, or a name below one.
unfoldable pub is_local_name : List Str → Str → Bool
is_local_name [] host = false
is_local_name (p ∷ ps) host =
    if str_eq host p || ends_with host (dot p) then true else is_local_name ps host

abbrev pub localhost_patterns : List Str
localhost_patterns = codes "localhost" ∷ codes "localhost.localdomain" ∷ codes "local" ∷ []

unfoldable pub validate_hostname : SsrfValidator → Str → List Issue
unfolding is_local_name is_loopback_allowed to_lower
validate_hostname v host =
    let lower = to_lower host in
    if is_local_name localhost_patterns lower
    then (if is_loopback_allowed v then [] else error localhost_blocked target_url ∷ [])
    else if ends_with lower (codes ".internal")
        || ends_with lower (codes ".local")
        || ends_with lower (codes ".localhost")
    then warning localhost_blocked target_url ∷ []
    else []

abbrev validate_address : SsrfValidator → Str → Option Ip → List Issue
validate_address v host none = validate_hostname v host
validate_address v host (some ip) = validate_ip_address v ip

abbrev is_empty : Str → Bool
is_empty [] = true
is_empty (c ∷ s) = false

unfoldable pub validate_host : SsrfValidator → Url → List Issue
unfolding validate_hostname validate_ip_address
validate_host v u =
    if is_empty u.hostname
    then error schema_violation target_url ∷ []
    else validate_address v u.hostname u.ip

-- The URL is none if it cannot be parsed. The target of a redirect is checked in the same way.
unfoldable pub validate_url : SsrfValidator → Option Url → List Issue
unfolding validate_scheme validate_user_info validate_host
validate_url v none = error schema_violation target_url ∷ []
validate_url v (some u) = validate_scheme u ++ (validate_user_info u ++ validate_host v u)

-- What the configuration holds of its redirects: the target, the policy in it, its mode and its bound.
pub record RedirectPolicy : Type 0 where
  pub mode : Option Str
  pub max_redirects : ℕ

abbrev is_valid_mode : Str → Bool
is_valid_mode m =
    str_eq m (codes "deny") || str_eq m (codes "same_origin") || str_eq m (codes "allowlist_only")

unfoldable pub validate_redirect_policy : Option (Option RedirectPolicy) → List Issue
validate_redirect_policy none = []
validate_redirect_policy (some none) =
    error redirect_policy_required (codes "/target/redirect_policy") ∷ []
validate_redirect_policy (some (some p)) = elim (p.mode) [
  | none ↦ error redirect_policy_required (codes "/target/redirect_policy/mode") ∷ []
  | some m ↦
      (if is_valid_mode m
        then []
        else error schema_violation (codes "/target/redirect_policy/mode") ∷ [])
      ++ (if ltb 3 p.max_redirects
          then error max_redirects_exceeded (codes "/target/redirect_policy/max_redirects") ∷ []
          else [])
]

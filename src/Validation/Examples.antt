-- ===== src/Validation/Examples.antt =====
-- Allowlists at concrete inputs.
use mathlib.Core.List.{Memᴰ}
use mcpdrill.Prelude.{Option, none, some, [], ◌∷◌, ◌≡◌, ◌↔◌, refl, false, codes, Str, Str-discrete}
use mcpdrill.Validation.Ssrf.Ranges.{Ip, v4, cidr4, contains}
use mcpdrill.Validation.Ssrf.{
  SsrfValidator, new_ssrf_validator, Url, validate_url, has_error, error, ip_literal_blocked,
  link_local_blocked, metadata_ip_blocked, target_url,
}
use mcpdrill.Validation.Ssrf.Accepts.{IsAdmittedUrl, validate_url_iff}
use mcpdrill.Validation.Policy.{
  AllowlistEntry, suffix, entries_overlap, compute_allowlist_intersection, intersect,
}
use mcpdrill.Validation.Policy.Overlap.{IsKept, compute_allowlist_intersection_iff}

abbrev wide : AllowlistEntry
wide = record { kind = suffix; value = codes ".com" }

abbrev narrow : AllowlistEntry
narrow = record { kind = suffix; value = codes ".example.com" }

compute_allowlist_intersection_iff_example :
    Memᴰ wide (compute_allowlist_intersection (wide ∷ []) (narrow ∷ []))
    ↔ IsKept wide (wide ∷ []) (narrow ∷ [])
compute_allowlist_intersection_iff_example =
    compute_allowlist_intersection_iff wide (wide ∷ []) (narrow ∷ [])

-- The wider entry of a run is kept as it is.
kept_wide : compute_allowlist_intersection (wide ∷ []) (narrow ∷ []) ≡ wide ∷ []
unfolding compute_allowlist_intersection intersect entries_overlap Str-discrete
kept_wide = refl

abbrev strict : SsrfValidator
strict = new_ssrf_validator (some (cidr4 10 1 0 0 16) ∷ none ∷ [])

abbrev url : Option Ip → Str → Option Url
url ip hostname =
    some (record { scheme = codes "HTTPS"; has_user = false; hostname = hostname; ip = ip })

validate_url_iff_example :
    (has_error (validate_url strict (url (some (v4 167837953)) (codes "10.1.1.1"))) ≡ false)
    ↔ IsAdmittedUrl strict (url (some (v4 167837953)) (codes "10.1.1.1"))
validate_url_iff_example = validate_url_iff strict (url (some (v4 167837953)) (codes "10.1.1.1"))

passes_allowed : validate_url strict (url (some (v4 167837953)) (codes "10.1.1.1")) ≡ []
unfolding validate_url new_ssrf_validator contains Str-discrete
passes_allowed = refl

blocks_metadata :
    validate_url strict (url (some (v4 2852039166)) (codes "169.254.169.254"))
    ≡ error ip_literal_blocked target_url
      ∷ error link_local_blocked target_url
      ∷ error link_local_blocked target_url
      ∷ error metadata_ip_blocked target_url
      ∷ []
unfolding validate_url new_ssrf_validator contains Str-discrete
blocks_metadata = refl

-- A name of the local host that ends with the dot of the root passes.
passes_root_dot : validate_url strict (url none (codes "localhost.")) ≡ []
unfolding validate_url new_ssrf_validator contains Str-discrete
passes_root_dot = refl

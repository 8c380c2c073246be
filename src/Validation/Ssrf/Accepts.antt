-- ===== src/Validation/Ssrf/Accepts.antt =====
-- Which targets pass.
use mathlib.Core.List.{Memᴰ}
use mcpdrill.Prelude.{
  ◌≡◌, refl, ◌⊎◌, ◌↔◌, inl, inr, List, [], ◌∷◌, ◌++◌, Bool, true, false, ◌||◌, Option, none, some,
  arith, Str, str_eq, codes, Bool-cases, if_cases, ap, sym, subst, ◌∙◌, ◌+◌, ◌*◌,
}
use mcpdrill.Validation.Ssrf.Ranges.{Ip, v4, v6, Range, contains}
use mcpdrill.Validation.Policy.{ends_with}
use mcpdrill.Validation.Policy.Endings.{
  EndsWith, ends_with-EndsWith, EndsWith-ends_with, str_eq_sound, str_eq_complete,
}
use mcpdrill.Validation.Ssrf.{
  SsrfValidator, Url, Issue, has_error, is_private_network_allowed, is_loopback_allowed, to_lower,
  is_local_name, localhost_patterns, validate_scheme, validate_user_info, validate_host,
  validate_hostname, validate_ip_address, validate_address, validate_url, is_empty, any_contains,
}

has_error-append : (is js : List Issue) → has_error (is ++ js) ≡ has_error is || has_error js
has_error-append [] js = refl
has_error-append (i ∷ is) js = ground (arith, has_error-append is js)

or_false : (a b : Bool) → (a || b) ≡ false → (a ≡ false) × (b ≡ false)
or_false a b h = ground arith

abbrev pub IsWeb : Str → Type 0
IsWeb scheme = (to_lower scheme ≡ codes "http") ⊎ (to_lower scheme ≡ codes "https")

-- An address is in a private network that is allowed.
abbrev pub IsAllowed : SsrfValidator → Ip → Type 0
IsAllowed v ip = (r : Range) × Memᴰ r v.allowed_private_ranges × (contains r ip ≡ true)

-- 127.0.0.1 or ::1 is allowed.
abbrev pub AllowsLoopback : SsrfValidator → Type 0
AllowsLoopback v = IsAllowed v (v4 (((127 * 256 + 0) * 256 + 0) * 256 + 1)) ⊎ IsAllowed v (v6 1)

abbrev pub local_names : List Str
local_names = codes "localhost" ∷ codes "localhost.localdomain" ∷ codes "local" ∷ []

-- One of the names of the local host, or a name below one.
abbrev pub IsLocal : List Str → Str → Type 0
IsLocal names host =
    (name : Str) × Memᴰ name names × ((host ≡ name) ⊎ EndsWith host (codes "." ++ name))

-- An address is admitted if it is allowed; a name if it is not one of the local host, in any case of its
-- letters, or the address of the local host is allowed.
abbrev pub AdmitsHost : SsrfValidator → Str → Option Ip → Type 0
AdmitsHost v host (some ip) = IsAllowed v ip
AdmitsHost v host none = ¬ (IsLocal local_names (to_lower host)) ⊎ AllowsLoopback v

any_contains-Mem :
    (rs : List Range) (ip : Ip)
    → any_contains rs ip ≡ true
    → (r : Range) × Memᴰ r rs × (contains r ip ≡ true)
unfolding any_contains
any_contains-Mem [] ip h = cc h
any_contains-Mem (r ∷ rs) ip h =
    if_cases (λ b. b ≡ true → (r' : Range) × Memᴰ r' (r ∷ rs) × (contains r' ip ≡ true))
      (contains r ip) true (any_contains rs ip) (λ here h'. (r, Memᴰ.head refl, here))
      (λ there h'. let (r', m, c) = any_contains-Mem rs ip h' in (r', Memᴰ.tail m, c)) h

Mem-any_contains :
    (rs : List Range) (ip : Ip) (r : Range)
    → Memᴰ r rs
    → contains r ip ≡ true
    → any_contains rs ip ≡ true
unfolding any_contains
Mem-any_contains [] ip r m c = elim m [ ]
Mem-any_contains (x ∷ rs) ip r m c =
    if_cases (λ b. b ≡ true) (contains x ip) true (any_contains rs ip) (λ here. refl)
      (λ there. elim m [
        | Memᴰ.head same ↦ cc (subst (λ y. contains y ip ≡ true) same c, there)
        | Memᴰ.tail m' ↦ Mem-any_contains rs ip r m' c
      ])

IsAllowed-iff :
    (v : SsrfValidator) (ip : Ip) → (is_private_network_allowed v ip ≡ true) ↔ IsAllowed v ip
unfolding is_private_network_allowed
IsAllowed-iff v ip = (
  any_contains-Mem v.allowed_private_ranges ip,
  λ (r, m, c). Mem-any_contains v.allowed_private_ranges ip r m c,
)

loopback_iff : (v : SsrfValidator) → (is_loopback_allowed v ≡ true) ↔ AllowsLoopback v
unfolding is_loopback_allowed
loopback_iff v =
    let four = is_private_network_allowed v (v4 2130706433) in
    let six = is_private_network_allowed v (v6 1) in
    (
      λ h.
          if_cases (λ b. b ≡ true → AllowsLoopback v) four true six
            (λ a h'. inl ((IsAllowed-iff v (v4 2130706433)).0 a))
            (λ a h'. inr ((IsAllowed-iff v (v6 1)).0 h')) h,
      λ h.
          if_cases (λ b. b ≡ true) four true six (λ a. refl)
            (λ a. elim h [
              | inl x ↦ cc ((IsAllowed-iff v (v4 2130706433)).1 x, a)
              | inr x ↦ (IsAllowed-iff v (v6 1)).1 x
            ]),
    )

is_local_name-IsLocal :
    (ps : List Str) (host : Str) → is_local_name ps host ≡ true → IsLocal ps host
unfolding is_local_name
is_local_name-IsLocal [] host h = cc h
is_local_name-IsLocal (p ∷ ps) host h =
    if_cases (λ b. b ≡ true → IsLocal (p ∷ ps) host)
      (str_eq host p || ends_with host (codes "." ++ p)) true (is_local_name ps host)
      (λ here h'. elim (Bool-cases (str_eq host p)) [
        | inl same ↦ (p, Memᴰ.head refl, inl (str_eq_sound host p same))
        | inr other ↦ (
          p,
          Memᴰ.head refl,
          inr (ends_with-EndsWith host (codes "." ++ p) (ground (arith, here, other))),
        )
      ])
      (λ there h'. let (n, m, c) = is_local_name-IsLocal ps host h' in (n, Memᴰ.tail m, c)) h

names_it :
    (p host : Str)
    → (host ≡ p) ⊎ EndsWith host (codes "." ++ p)
    → (str_eq host p || ends_with host (codes "." ++ p)) ≡ true
names_it p host (inl same) = ground (arith, str_eq_complete host p same)
names_it p host (inr below) = ground (arith, EndsWith-ends_with host (codes "." ++ p) below)

IsLocal-is_local_name :
    (ps : List Str) (host : Str) → IsLocal ps host → is_local_name ps host ≡ true
unfolding is_local_name
IsLocal-is_local_name [] host (n, m, c) = elim m [ ]
IsLocal-is_local_name (p ∷ ps) host (n, m, c) =
    if_cases (λ b. b ≡ true) (str_eq host p || ends_with host (codes "." ++ p)) true
      (is_local_name ps host) (λ here. refl)
      (λ there. elim m [
        | Memᴰ.head same ↦ cc (
          names_it p host (subst (λ q. (host ≡ q) ⊎ EndsWith host (codes "." ++ q)) same c),
          there,
        )
        | Memᴰ.tail m' ↦ IsLocal-is_local_name ps host (n, m', c)
      ])

-- The name decides as the code's tests do.
abbrev Tests : SsrfValidator → Str → Option Ip → Type 0
Tests v host (some ip) = is_private_network_allowed v ip ≡ true
Tests v host none =
    (is_local_name localhost_patterns (to_lower host) ≡ false) ⊎ (is_loopback_allowed v ≡ true)

Tests-iff :
    (v : SsrfValidator) (host : Str) (ip : Option Ip) → Tests v host ip ↔ AdmitsHost v host ip
Tests-iff v host (some ip) = IsAllowed-iff v ip
Tests-iff v host none =
    let name = to_lower host in
    (
      λ h. elim h [
        | inl free ↦ inl (λ l. cc (IsLocal-is_local_name local_names name l, free))
        | inr ok ↦ inr ((loopback_iff v).0 ok)
      ],
      λ h. elim h [
        | inl free ↦ elim (Bool-cases (is_local_name localhost_patterns name)) [
          | inl it_is ↦ absurd (free (is_local_name-IsLocal local_names name it_is))
          | inr it_is_not ↦ inl it_is_not
        ]
        | inr ok ↦ inr ((loopback_iff v).1 ok)
      ],
    )

scheme_iff : (u : Url) → (has_error (validate_scheme u) ≡ false) ↔ IsWeb u.scheme
unfolding validate_scheme
scheme_iff u = ground arith

checked_iff :
    (v : SsrfValidator) (host : Str) (ip : Option Ip)
    → (has_error (validate_address v host ip) ≡ false) ↔ Tests v host ip
unfolding validate_hostname validate_ip_address
checked_iff v host none = ground arith
checked_iff v host (some ip) = ground arith

address_iff :
    (v : SsrfValidator) (host : Str) (ip : Option Ip)
    → (has_error (validate_address v host ip) ≡ false) ↔ AdmitsHost v host ip
address_iff v host ip =
    let t = checked_iff v host ip in
    let s = Tests-iff v host ip in (λ h. s.0 (t.0 h), λ h. t.1 (s.1 h))

pub record IsAdmitted (v : SsrfValidator) (u : Url) : Type 0 where
  pub web : IsWeb u.scheme
  pub no_user : u.has_user ≡ false
  pub has_host : is_empty u.hostname ≡ false
  pub host : AdmitsHost v u.hostname u.ip

host_iff :
    (v : SsrfValidator) (u : Url)
    → (has_error (validate_host v u) ≡ false)
      ↔ ((is_empty u.hostname ≡ false) × AdmitsHost v u.hostname u.ip)
unfolding validate_host
host_iff v u = elim (Bool-cases (is_empty u.hostname)) [
  | inl e ↦ (λ h. let x : true ≡ false = rw e at h in cc, λ (e', h). cc)
  | inr e ↦ (
    λ h. (e, (address_iff v u.hostname u.ip).0 (rw e at h)),
    λ (e', h). rw e ((address_iff v u.hostname u.ip).1 h),
  )
]

user_iff : (u : Url) → (has_error (validate_user_info u) ≡ false) ↔ (u.has_user ≡ false)
unfolding validate_user_info
user_iff u = ground arith

abbrev pub IsAdmittedUrl : SsrfValidator → Option Url → Type 0
IsAdmittedUrl v none = ⊥
IsAdmittedUrl v (some u) = IsAdmitted v u

-- A target passes, without an error in its report, exactly if it can be parsed, its scheme is HTTP or
-- HTTPS, it names no user and a host, and that host is an address in a private network that is allowed,
-- or a name that is neither `localhost`, `localhost.localdomain` or `local` nor one below these, unless
-- 127.0.0.1 or ::1 is allowed.
pub validate_url_iff :
    (v : SsrfValidator) (u : Option Url)
    → (has_error (validate_url v u) ≡ false) ↔ IsAdmittedUrl v u
unfolding validate_url
validate_url_iff v none = (λ h. cc, λ h. absurd h)
validate_url_iff v (some u) =
    let s = scheme_iff u in
    let w = user_iff u in
    let h = host_iff v u in
    let e =
      has_error-append (validate_scheme u) (validate_user_info u ++ validate_host v u)
      ∙ ap (λ b. has_error (validate_scheme u) || b)
          (has_error-append (validate_user_info u) (validate_host v u)) in
    (
      λ ok.
          let parts = or_false _ _ (sym e ∙ ok) in
          let parts' = or_false _ _ parts.1 in
          record {
            web = s.0 parts.0;
            no_user = w.0 parts'.0;
            has_host = (h.0 parts'.1).0;
            host = (h.0 parts'.1).1;
          },
      λ a. e ∙ ground (arith, s.1 a.web, w.1 a.no_user, h.1 (a.has_host, a.host)),
    )

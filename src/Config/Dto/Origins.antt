-- ===== src/Config/Dto/Origins.antt =====
-- The origins of `isAllowedOrigin` against the hosts of `isAllowedRequestHost`.
use conspire.Prelude.{
  ℕ, ◌≡◌, ◌↔◌, ◌⊎◌, inl, inr, refl, ap, ◌∙◌, Bool, true, false, ◌++◌, Option, none, some, ◌==◌,
  Bool-cases, Option-cases, arith,
}
use mathlib.Core.List.{append-nil}
use mathlib.Core.Option
use conspire.Prelude.Bytes.{Bytes, codes, same_iff}
use conspire.Boundaries.Text.{allowed_origin}
use conspire.Config.{canonical_base_url}
use conspire.Config.Dto.{
  ConfigDto, default_port, port_suffix, get_host_string, get_canonical_base_url,
  get_onion_host_string, get_onion_base_url, is_allowed_origin, is_text, is_onion_request_host,
}

-- The scheme of a page served on the configured host.
unfoldable pub page_scheme : Bool → Bytes
page_scheme true = codes "https://"
page_scheme false = codes "http://"

==_comm : (a b : ℕ) → (a == b) ≡ (b == a)
==_comm a b = ground arith

-- A port is left out of both forms alike.
base_url_lem :
    (host : Bytes) (port : ℕ) (tls : Bool) (null_number : Bytes)
    → canonical_base_url host port tls
      ≡ page_scheme tls ++ (host ++ port_suffix (some port) (default_port tls) null_number)
unfolding canonical_base_url page_scheme
base_url_lem host port true null_number = elim (Bool-cases (port == 443)) [
  | inl default ↦ rw (default, ==_comm 443 port ∙ default, append-nil host)
  | inr other ↦ rw (other, ==_comm 443 port ∙ other)
]
base_url_lem host port false null_number = elim (Bool-cases (port == 80)) [
  | inl default ↦ rw (default, ==_comm 80 port ∙ default, append-nil host)
  | inr other ↦ rw (other, ==_comm 80 port ∙ other)
]

module _ (null_text null_number : Bytes) where
  canonical_base_url_lem :
      (c : ConfigDto) (host : Bytes) (port : ℕ)
      → c.host ≡ some host
      → c.port ≡ some port
      → get_canonical_base_url c ≡ page_scheme c.use_tls ++ get_host_string null_text null_number c
  unfolding get_canonical_base_url get_host_string
  canonical_base_url_lem c host port eh ep =
      rw (eh, ep) (base_url_lem host port c.use_tls null_number)

onion_base_url_lem :
    (c : ConfigDto)
    → get_onion_base_url c
      ≡ Option.map (λ host. page_scheme false ++ host) (get_onion_host_string c)
unfolding get_onion_base_url get_onion_host_string page_scheme canonical_base_url
onion_base_url_lem c = elim (Option-cases c.onion_host) [
  | inl none_set ↦ rw (none_set)
  | inr (host, host_set) ↦ elim (Option-cases c.tor_virtual_port) [
    | inl unset ↦ rw (host_set, unset)
    | inr (port, port_set) ↦ elim (Bool-cases (port == 80)) [
      | inl default ↦ rw (host_set, port_set, default)
      | inr other ↦ rw (host_set, port_set, other)
    ]
  ]
]

-- A text that begins with the scheme, against the text after it.
is_text-map_iff :
    (host : Option Bytes) (scheme origin : Bytes)
    → (is_text (Option.map (λ h. scheme ++ h) host) origin ≡ true)
      ↔ ((onion : Bytes) × (is_text host onion ≡ true) × (origin ≡ scheme ++ onion))
is_text-map_iff none scheme origin = (λ p. absurd (cc p), λ found. absurd (cc found.1))
is_text-map_iff (some h) scheme origin = (
  λ p. (h, (same_iff h h).1 refl, (same_iff origin (scheme ++ h)).0 p),
  λ found.
      (same_iff origin (scheme ++ h)).1
        (found.2 ∙ ap (λ text. scheme ++ text) ((same_iff found.0 h).0 found.1)),
)

module _ (null_text null_number : Bytes) where
  -- Without the development override, on a configuration with a host and a port, an origin is
  -- accepted exactly if it is the page's scheme with the host that requests are accepted for, or
  -- `http://` with an onion host that requests are accepted for.
  pub is_allowed_origin_iff :
      (c : ConfigDto) (host : Bytes) (port : ℕ) (origin : Bytes)
      → c.host ≡ some host
      → c.port ≡ some port
      → (is_allowed_origin c origin false ≡ true) ↔ (
          (origin ≡ page_scheme c.use_tls ++ get_host_string null_text null_number c)
          ⊎ ((onion : Bytes) × (is_onion_request_host c onion ≡ true)
              × (origin ≡ page_scheme false ++ onion)))
  unfolding is_allowed_origin allowed_origin is_onion_request_host
  is_allowed_origin_iff c host port origin eh ep =
      rw (canonical_base_url_lem null_text null_number c host port eh ep, onion_base_url_lem c)
        (ground (
          arith,
          same_iff origin (page_scheme c.use_tls ++ get_host_string null_text null_number c),
          is_text-map_iff (get_onion_host_string c) (page_scheme false) origin,
        ))

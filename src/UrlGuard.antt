-- ===== src/UrlGuard.antt =====
-- The guarded fetch of django_atlas/security/url_guard.py. The url parser, the resolver, the
-- address classes of `ipaddress` and the HTTP client are parameters. Bytes are numbers. A fetch
-- returns its result with the list of the urls that it requested, in order.
pub mod Fetch
use entirius_django_atlas.Base.{
  ℕ, zero, suc, ◌+◌, Bool, true, false, not, ◌&&◌, ◌||◌, ◌==◌, ltb, Option, none, some, String,
  List, [], ◌∷◌, ◌++◌, if◌then◌else◌, length, str_eq,
}
use entirius_django_atlas.Base.Outcome.{Result, ok, err, ◌>>=◌, ◌>>◌, raise_if, or_raise}

pub data UrlError : Type 0 where
  disallowed_scheme missing_hostname cannot_resolve internal_host : UrlError
  missing_location body_exceeds_cap http_error request_failed too_many_redirects : UrlError

pub record ParsedUrl : Type 0 where
  pub scheme : String
  pub hostname : Option String

pub record Response : Type 0 where
  pub status_code : ℕ
  pub location : Option String
  pub chunks : List (List ℕ)

-- `_MAX_REDIRECTS`
abbrev pub max_redirects : ℕ
max_redirects = 5

-- `_REDIRECT_STATUS_CODES`
abbrev pub is_redirect : ℕ → Bool
is_redirect code = code == 301 || code == 302 || code == 303 || code == 307 || code == 308

-- `_ALLOWED_SCHEMES`
abbrev pub allowed_scheme : String → Bool
allowed_scheme scheme = str_eq scheme "http" || str_eq scheme "https"

abbrev pub nonempty : Option String → Option String
nonempty none = none
nonempty (some text) = if str_eq text "" then none else some text

-- The loop over the addresses of a host; an address that does not parse is passed over.
abbrev pub any_internal : (String → Option Bool) → List String → Bool
any_internal internal [] = false
any_internal internal (ip ∷ rest) = elim (internal ip) [
  | none ↦ any_internal internal rest
  | some flagged ↦ flagged || any_internal internal rest
]

-- The chunks are read until the body is longer than the cap.
abbrev pub read_body : ℕ → List ℕ → List (List ℕ) → Result UrlError (List ℕ)
read_body cap body [] = ok body
read_body cap body (chunk ∷ rest) =
    let longer = read_body cap (body ++ chunk) rest in
    if ltb cap (length (body ++ chunk)) then err body_exceeds_cap else longer

module _ (raises_for_status : ℕ → Bool) (urljoin : String → String → String) where
  abbrev pub finish : ℕ → Response → Result UrlError (List ℕ)
  finish cap response = do
    raise_if (raises_for_status response.status_code) http_error
    read_body cap [] response.chunks

  abbrev pub requested :
      String → Result UrlError (List ℕ) × List String → Result UrlError (List ℕ) × List String
  requested url rest = (rest.0, url ∷ rest.1)

  -- One answer: `follow` is the rest of the loop at the next url.
  abbrev pub answer :
      ℕ
      → String
      → (String → Result UrlError (List ℕ) × List String)
      → Response
      → Result UrlError (List ℕ) × List String
  answer cap url follow response =
      let redirected =
        elim (nonempty response.location) as (λ _. Result UrlError (List ℕ) × List String) [
          | none ↦ (err missing_location, url ∷ [])
          | some location ↦ requested url (follow (urljoin url location))
        ] in
      if is_redirect response.status_code then redirected else (finish cap response, url ∷ [])

module _ (urlparse : String → ParsedUrl) (getaddrinfo : String → Option (List String))
    (internal : String → Option Bool) (block_private_hosts : Bool) where
  abbrev pub is_internal_ip : String → Result UrlError Bool
  is_internal_ip host = do
    addresses ← or_raise (getaddrinfo host) cannot_resolve
    ok (any_internal internal addresses)

  abbrev pub check_host : String → Result UrlError (Unit {0})
  check_host host =
      let looked_up = is_internal_ip host >>= (λ bad. raise_if bad internal_host) in
      if block_private_hosts then looked_up else ok tt

  unfoldable pub assert_safe_url : String → Result UrlError (Unit {0})
  assert_safe_url url = do
    raise_if (not (allowed_scheme (urlparse url).scheme)) disallowed_scheme
    host ← or_raise (nonempty (urlparse url).hostname) missing_hostname
    check_host host

  module _ (get : String → Option Response) (raises_for_status : ℕ → Bool)
      (urljoin : String → String → String) where
    unfoldable pub hops : ℕ → ℕ → String → Result UrlError (List ℕ) × List String
    unfolding assert_safe_url
    hops zero cap url = (err too_many_redirects, [])
    hops (suc left) cap url =
        elim (assert_safe_url url) as (λ _. Result UrlError (List ℕ) × List String) [
          | err e ↦ (err e, [])
          | ok _ ↦ elim (get url) as (λ _. Result UrlError (List ℕ) × List String) [
            | none ↦ (err request_failed, url ∷ [])
            | some response ↦ answer raises_for_status urljoin cap url (hops left cap) response
          ]
        ]

    unfoldable pub safe_get : ℕ → String → Result UrlError (List ℕ) × List String
    unfolding hops
    safe_get cap url = hops (max_redirects + 1) cap url

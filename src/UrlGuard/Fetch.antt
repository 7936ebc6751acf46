-- ===== src/UrlGuard/Fetch.antt =====
-- What `safe_get` of url_guard.py contacts and returns.
use entirius_django_atlas.Base.{
  ℕ, zero, suc, ◌≤◌, ◌≡◌, Bool, ltb, Option, String, List, [], ◌∷◌, ◌++◌, All, length, arith, inl,
  inr, Option-cases, Bool-cases,
}
use entirius_django_atlas.Base.Outcome.{Result, ok, err, Result-cases}
use entirius_django_atlas.UrlGuard.{
  UrlError, ParsedUrl, Response, read_body, assert_safe_url, finish, answer, hops, safe_get,
  is_redirect, nonempty,
}

-- A result within the cap, if there is one.
abbrev pub WithinCap : ℕ → Result UrlError (List ℕ) → Type 0
WithinCap cap (ok body) = length body ≤ cap
WithinCap cap (err e) = Unit

read_body-WithinCap :
    (cap : ℕ) (body : List ℕ) (chunks : List (List ℕ))
    → length body ≤ cap
    → WithinCap cap (read_body cap body chunks)
read_body-WithinCap cap body [] h = h
read_body-WithinCap cap body (chunk ∷ rest) h =
    elim (Bool-cases (ltb cap (length (body ++ chunk)))) [
      | inl e ↦ rw e tt
      | inr e ↦ rw e (read_body-WithinCap cap (body ++ chunk) rest (ground (arith, e)))
    ]

module _ (raises_for_status : ℕ → Bool) (urljoin : String → String → String) where
  finish-WithinCap :
      (cap : ℕ) (response : Response)
      → WithinCap cap (finish raises_for_status urljoin cap response)
  finish-WithinCap cap response = elim (Bool-cases (raises_for_status response.status_code)) [
    | inl e ↦ rw e tt
    | inr e ↦ rw e (read_body-WithinCap cap [] response.chunks (omega arith))
  ]

module _ (urlparse : String → ParsedUrl) (getaddrinfo : String → Option (List String))
    (internal : String → Option Bool) (block_private_hosts : Bool) where
  abbrev pub IsSafe : String → Type 0
  IsSafe url = assert_safe_url urlparse getaddrinfo internal block_private_hosts url ≡ ok tt

  -- The outcome of a loop that may still ask `left` times.
  abbrev pub Guarded : ℕ → ℕ → Result UrlError (List ℕ) × List String → Type 0
  Guarded left cap out = All IsSafe out.1 × (length out.1 ≤ left) × WithinCap cap out.0

  module _ (raises_for_status : ℕ → Bool) (urljoin : String → String → String) where
    answer-Guarded :
        (left cap : ℕ) (url : String) (follow : String → Result UrlError (List ℕ) × List String)
        (response : Response)
        → IsSafe url
        → ((next : String) → Guarded left cap (follow next))
        → Guarded (suc left) cap (answer raises_for_status urljoin cap url follow response)
    answer-Guarded left cap url follow response safe rest =
        elim (Bool-cases (is_redirect response.status_code)) [
          | inr e ↦
              rw e
                ((safe, tt), omega arith, finish-WithinCap raises_for_status urljoin cap response)
          | inl e ↦ elim (Option-cases (nonempty response.location)) [
            | inl f ↦ rw (e, f) ((safe, tt), omega arith, tt)
            | inr (loc, f) ↦
                rw (e, f)
                  (
                    (safe, (rest (urljoin url loc)).0),
                    omega (arith, (rest (urljoin url loc)).1),
                    (rest (urljoin url loc)).2,
                  )
          ]
        ]

    module _ (get : String → Option Response) where
      hops-Guarded :
          (left cap : ℕ) (url : String)
          → Guarded left cap (
              hops urlparse getaddrinfo internal block_private_hosts get raises_for_status urljoin
                left cap url)
      unfolding hops
      hops-Guarded zero cap url = (tt, omega arith, tt)
      hops-Guarded (suc left) cap url =
          elim (Result-cases
            (assert_safe_url urlparse getaddrinfo internal block_private_hosts url)) [
              | inl (e, raised) ↦ rw (hops, raised) (tt, omega arith, tt)
              | inr (u, safe) ↦ elim (Option-cases (get url)) [
                | inl f ↦ rw (hops, safe, f) ((safe, tt), omega arith, tt)
                | inr (response, f) ↦
                    rw (hops, safe, f)
                      (answer-Guarded left cap url _ response safe (hops-Guarded left cap))
              ]
            ]

      -- Every url that `safe_get` requests, redirect targets included, passed `assert_safe_url`;
      -- it makes at most six requests; a body that it returns is no longer than the cap.
      pub safe_get-Guarded :
          (cap : ℕ) (url : String)
          → let out =
              safe_get urlparse getaddrinfo internal block_private_hosts get raises_for_status
                urljoin cap url in
            All IsSafe out.1 × (length out.1 ≤ 6) × WithinCap cap out.0
      unfolding safe_get
      safe_get-Guarded cap url = hops-Guarded 6 cap url

-- ===== src/Http/Translation.antt =====
-- `normalize_request` and `upstream_url` of crates/veilid-http-http/src/lib.rs.
-- The method tokens of the http crate and the URLs of the url crate are parameters.
use veilid_http.Prelude.{
  ◌≡◌, refl, subst, ok_unique, Option-cases, Bool-cases, inl, inr, Bool, not, ◌||◌, Option, none,
  some, [], ◌∷◌, bytes_eq, if◌then◌else◌, Result, ok, err, arith, reject_if, ok_or, ◌>>=◌, ◌>>◌,
}
use veilid_http.Prelude.Text.{Text, ascii, starts_with}
use veilid_http.Stream.Types.{RequestHead}
use veilid_http.Http.Error.{
  HttpTranslationError, invalid_method, absolute_uri_forbidden, connect_unsupported,
  invalid_upstream,
}
use veilid_http.Http.Headers.{strip_hop_by_hop}
use veilid_http.Http.Headers.Idempotence.{strip_hop_by_hop_idem}

-- `http::Method::from_bytes`, and the comparison with `Method::CONNECT`.
pub record Methods (Method : Type 0) : Type 0 where
  pub from_bytes : Text → Option Method
  pub is_connect : Method → Bool

-- The target is not an absolute path, or names an authority.
abbrev foreign : Text → Bool
foreign target = not (starts_with target (b'/' ∷ [])) || starts_with target (b'/' ∷ b'/' ∷ [])

module _ {Method : Type 0} (methods : Methods Method) where
  unfoldable pub normalize_request : RequestHead → Result HttpTranslationError RequestHead
  normalize_request request = elim (methods.from_bytes request.method) [
    | none ↦ err invalid_method
    | some method ↦
        if methods.is_connect method
        then err connect_unsupported
        else if foreign request.path_and_query
        then err absolute_uri_forbidden
        else ok (record request { headers = strip_hop_by_hop request.headers })
  ]

  -- A normalised head is normal.
  pub normalize_request_idem :
      (request head : RequestHead)
      → normalize_request request ≡ ok head
      → normalize_request head ≡ ok head
  unfolding normalize_request
  normalize_request_idem request head e = elim (Option-cases (methods.from_bytes request.method)) [
    | inl none_eq ↦ absurd (ground arith)
    | inr (method, found) ↦ elim (Bool-cases (methods.is_connect method)) [
      | inl connect ↦ absurd (ground arith)
      | inr other ↦ elim (Bool-cases (foreign request.path_and_query)) [
        | inl bad ↦ absurd (ground arith)
        | inr good ↦
            subst (λ h. normalize_request h ≡ ok h)
              {x = record request { headers = strip_hop_by_hop request.headers }}
              (ok_unique (rw (normalize_request, found, other, good) refl) e)
              (rw (normalize_request, found, other, good, strip_hop_by_hop_idem request.headers)
                refl)
      ]
    ]
  ]

-- `url::Url`. `set_path` and `set_query` change the URL; `join` resolves a reference against it.
pub record Urls (Url : Type 0) : Type 0 where
  pub parse : Text → Option Url
  pub scheme : Url → Text
  pub cannot_be_a_base : Url → Bool
  pub set_path : Url → Text → Url
  pub set_query : Url → Option Text → Url
  pub join : Url → Text → Option Url

module _ {Url : Type 0} (urls : Urls Url) where
  unfoldable pub upstream_url : Text → Text → Result HttpTranslationError Url
  upstream_url base path_and_query = do
    url ← ok_or (urls.parse base) invalid_upstream
    reject_if
        (not (
            bytes_eq (urls.scheme url) (ascii "http") || bytes_eq (urls.scheme url) (ascii "https"))
          || urls.cannot_be_a_base url)
        invalid_upstream
    ok_or (urls.join (urls.set_query (urls.set_path url []) none) path_and_query) invalid_upstream

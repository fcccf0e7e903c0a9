-- ===== src/Bridge/Config.antt =====
-- `Config`, `parse_duration` and the checks of `main` of apps/veilid-http-bridge/src/main.rs.
-- Durations are seconds; the fields that only name files, endpoints or versions are left out.
pub mod Sender
mod Tests
use veilid_http.Prelude.{
  ℕ, ◌*◌, Bool, true, false, not, ◌||◌, ◌==◌, ltb, leb, if◌then◌else◌, is_empty, Option, none, some,
  [], ◌∷◌, Result, ok, err, reject_if, ok_or, bytes_eq, ◌&&◌, ◌>>=◌, ◌>>◌,
}
use veilid_http.Prelude.Text.{Text, ascii, parse_usize}
use veilid_http.Prelude.Words.{u64_max, saturating_mul}
use veilid_http.Wire.Limits.{default_frame_limit}
use veilid_http.Http.Translation.{Urls}

pub record Config : Type 0 where
  pub upstream_url : Text
  pub overall_timeout : ℕ
  pub frame_bytes : ℕ
  pub send_window_frames : ℕ
  pub route_header : Text
  pub max_atomic_body_bytes : ℕ
  pub max_request_bytes : ℕ
  pub max_response_bytes : ℕ
  pub max_pending_bytes : ℕ
  pub max_out_of_order_bytes : ℕ
  pub completed_retention : ℕ
  pub completed_response_bytes : ℕ
  pub completed_max_entries : ℕ

pub data DurationError : Type 0 where
  not_an_integer unknown_unit : DurationError

-- `value.split_at(value.find(|c| !c.is_ascii_digit()).unwrap_or(value.len()))`.
split_digits : Text → Text × Text
split_digits [] = ([], [])
split_digits (c ∷ value) =
    let (amount, unit) = split_digits value in
    if leb b'0' c && leb c b'9' then (c ∷ amount, unit) else ([], c ∷ value)

-- `u64` has the values of `usize`.
pub parse_duration : Text → Result DurationError ℕ
unfolding split_digits
parse_duration value = do
  amount ← ok_or (parse_usize (split_digits value).0) not_an_integer
  let unit = (split_digits value).1 in
      if bytes_eq unit (ascii "s") || is_empty unit
      then ok amount
      else if bytes_eq unit (ascii "m")
      then ok (saturating_mul u64_max amount 60)
      else if bytes_eq unit (ascii "h")
      then ok (saturating_mul u64_max amount 3600)
      else err unknown_unit

pub data ConfigError : Type 0 where
  invalid_upstream_url unsupported_scheme frame_too_large invalid_window : ConfigError
  pending_too_small completed_too_large : ConfigError

-- The checks of `main`, up to `ensure_layout`.
module _ {Url : Type 0} (urls : Urls Url) where
  pub check_config : Config → Result ConfigError (Unit {0})
  check_config config = do
    upstream ← ok_or (urls.parse config.upstream_url) invalid_upstream_url
    reject_if
        (not (
          bytes_eq (urls.scheme upstream) (ascii "http")
          || bytes_eq (urls.scheme upstream) (ascii "https")))
        unsupported_scheme
    reject_if (ltb default_frame_limit config.frame_bytes) frame_too_large
    reject_if (config.send_window_frames == 0 || ltb 64 config.send_window_frames) invalid_window
    reject_if (ltb config.max_pending_bytes config.frame_bytes) pending_too_small
    reject_if (ltb config.max_atomic_body_bytes config.completed_response_bytes) completed_too_large
    ok tt

-- ===== src/Bridge/Config/Tests.antt =====
-- A configuration that `main` accepts and whose responses are all refused, and durations.
use veilid_http.Prelude.{is_ok, ◌*◌, ◌≡◌, refl, false, leb, some, [], ◌∷◌, ◌++◌, ok, err, arith}
use veilid_http.Prelude.Text.{Text, ascii, parse_usize}
use veilid_http.Stream.Types.{response, zstd}
use veilid_http.Prelude.Int.{pos}
use veilid_http.Stream.Encoder.{compressing, new as new_encoder}
use veilid_http.Stream.Sample.{sample_hash, sample_zstd}
use veilid_http.Engine.Outgoing.{new}
use veilid_http.Http.Translation.{Urls}
use veilid_http.Bridge.Config.{Config, parse_duration, unknown_unit, check_config}
use veilid_http.Bridge.Config.Sender.{new-check_config}

-- URLs of the scheme http only.
abbrev http_urls : Urls Text
http_urls = record {
  parse = λ s. some s;
  scheme = λ u. ascii "http";
  cannot_be_a_base = λ u. false;
  set_path = λ u path. u ++ path;
  set_query = λ u query. u;
  join = λ u reference. some (u ++ reference);
}

-- A pending bound of one frame, with the default window of 32 frames.
abbrev one_frame : Config
one_frame = record {
  upstream_url = ascii "http://localhost";
  overall_timeout = 300;
  frame_bytes = 30720;
  send_window_frames = 32;
  route_header = ascii "X-Veilid-Route";
  max_atomic_body_bytes = 65536;
  max_request_bytes = 65536;
  max_response_bytes = 65536;
  max_pending_bytes = 30720;
  max_out_of_order_bytes = 65536;
  completed_retention = 600;
  completed_response_bytes = 65536;
  completed_max_entries = 16;
}

one_frame_accepted : check_config http_urls one_frame ≡ ok tt
unfolding check_config
one_frame_accepted = refl

new-check_config_example :
    is_ok (new sample_hash sample_zstd (1 ∷ []) response zstd (pos 3) 30720 256 32 30720)
    ≡ leb (30720 * 32) 30720
unfolding new_encoder
new-check_config_example =
    new-check_config http_urls sample_hash sample_zstd one_frame (1 ∷ []) response zstd (pos 3)
      (record {
        direction = response;
        compression = compressing [];
        hasher = [];
        logical_length = 0;
      })
      one_frame_accepted (omega arith) refl

minutes : parse_duration (ascii "5m") ≡ ok 300
unfolding parse_duration parse_usize
minutes = refl

no_unit : parse_duration (ascii "90") ≡ ok 90
unfolding parse_duration parse_usize
no_unit = refl

days : parse_duration (ascii "1d") ≡ err unknown_unit
unfolding parse_duration parse_usize
days = refl

-- ===== src/Wire/Limits.antt =====
-- The constants of crates/veilid-http-wire/src/lib.rs.
use veilid_http.Prelude.{ℕ, ◌*◌, List, [], ◌∷◌}

abbrev pub veilid_message_limit : ℕ
veilid_message_limit = 32768

abbrev pub default_frame_limit : ℕ
default_frame_limit = 30 * 1024

abbrev pub header_len : ℕ
header_len = 40

abbrev pub max_metadata_len : ℕ
max_metadata_len = 8 * 1024

abbrev pub bundle_header_len : ℕ
bundle_header_len = 8

-- The bytes of "VHTP".
abbrev pub magic : List ℕ
magic = b'V' ∷ b'H' ∷ b'T' ∷ b'P' ∷ []

abbrev pub version : ℕ
version = 1

-- The bytes of "VHB1".
abbrev pub bundle_magic : List ℕ
bundle_magic = b'V' ∷ b'H' ∷ b'B' ∷ b'1' ∷ []

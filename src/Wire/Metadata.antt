-- ===== src/Wire/Metadata.antt =====
-- `Metadata` of crates/veilid-http-wire/src/lib.rs. Texts are their UTF-8 bytes.
use veilid_http.Prelude.{ℕ, List, []}
use veilid_http.Prelude.HashMap.{HashMap}

pub record Metadata : Type 0 where
  pub http : HashMap (List ℕ)
  pub vhttp : HashMap (List ℕ)
  pub extensions : HashMap (List ℕ)

abbrev pub default : Metadata
default = record { http = []; vhttp = []; extensions = [] }

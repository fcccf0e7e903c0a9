-- ===== src/Ipc/Credit.antt =====
-- `IpcStreamDirection` and `StreamCredit` of crates/veilid-http-ipc/src/lib.rs.
use veilid_http.Prelude.{ℕ, ◌||◌, ltb, ◌==◌, if◌then◌else◌, Result, ok, err}
use veilid_http.Ipc.{IpcError, invalid_stream_credits}

abbrev pub max_stream_credits : ℕ
max_stream_credits = 64

pub data IpcStreamDirection : Type 0 where
  request response : IpcStreamDirection

-- `default_credit_direction`, for the clients that omit the field.
abbrev pub default_credit_direction : IpcStreamDirection
default_credit_direction = response

pub record StreamCredit : Type 0 where
  pub direction : IpcStreamDirection
  pub credits : ℕ

pub validate : StreamCredit → Result IpcError StreamCredit
validate c =
    if c.credits == 0 || ltb max_stream_credits c.credits
    then err (invalid_stream_credits c.credits)
    else ok c

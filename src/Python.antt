-- ===== src/Python.antt =====
-- What the source uses of Python and its libraries and does not implement, as a parameter of the
-- definitions that use it: methods of `str`, the conversions `str` and `int` of a JSON value, and
-- HMAC-SHA256 of a key and a message in UTF-8. `int` is `none` where Python raises.
use travel_web_api.Db.Users.{Digest}
use travel_web_api.Json.{Json}
use travel_web_api.Prelude.{ℕ, ◌*◌, String, Option}
use travel_web_api.Prelude.Int.{ℤ}

pub record Python : Type 0 where
  pub upper : String → String
  pub strip : String → String
  pub casefold : String → String
  pub text_of : Json → String
  pub int_of : Json → Option ℤ
  pub hmac : String → String → Digest

-- datetime.timedelta(seconds=…) and (days=…), in microseconds.
abbrev pub seconds : ℕ → ℕ
seconds n = n * 1_000_000

abbrev pub days : ℕ → ℕ
days n = n * 86_400_000_000

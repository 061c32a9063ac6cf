-- ===== src/Number/Tests.antt =====
-- Runs of the number conversions.
use mtasc.Common.{◌≡◌, ok, arith}
use mtasc.Number.{pos, stoi, to_string}
use mtasc.Number.RoundTrip.{stoi-to_string}

stoi_of_port : stoi (to_string 8080) ≡ ok (pos 8080)
stoi_of_port = stoi-to_string 8080 (omega arith)

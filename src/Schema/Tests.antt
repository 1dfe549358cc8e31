-- ===== src/Schema/Tests.antt =====
-- Hashes of the right length, with a line feed at the end, and of the wrong length.
use dox.Prelude.{◌≡◌, refl, ◌↔◌, true, false, String, some}
use dox.Result.{ok}
use dox.Schema.{validate_sha256_hash, is_sha256, hex_run, at_end, is_traceparent, literal}
use dox.Schema.Patterns.{HexRun, IsEnd, chars, validate_sha256_hash-HexRun}

abbrev hash : String
hash = "0123456789abcdef0123456789abcdef0123456789abcdef0123456789abcdef"

with_line_feed :
    is_sha256 "0123456789abcdef0123456789abcdef0123456789abcdef0123456789abcdef\n" ≡ true
unfolding is_sha256 hex_run at_end
with_line_feed = refl

too_short : is_sha256 "0123456789abcdef" ≡ false
unfolding is_sha256 hex_run at_end
too_short = refl

traced : is_traceparent "00-0af7651916cd43dd8448eb211c80319c-b7ad6b7169203331-01" ≡ true
unfolding is_traceparent hex_run literal at_end
traced = refl

validate_sha256_hash-HexRun_example :
    ((validate_sha256_hash (some hash) ≡ ok (some hash)) ↔ HexRun 64 IsEnd (chars hash))
validate_sha256_hash-HexRun_example = validate_sha256_hash-HexRun hash

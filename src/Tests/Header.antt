-- ===== src/Tests/Header.antt =====
-- Decoding the header that was encoded.
use tcslog.Prelude.{All, ◌≡◌, refl, arith, list_eq}
use tcslog.Bytes
use tcslog.Bytes.{IsByte}
use tcslog.Error.{ok}
use tcslog.Format.{from_tag, tag, fixed_len}
use tcslog.Header.{to_bytes, from_bytes, check_version}
use tcslog.Header.RoundTrip.{IsValid, from_bytes-IsValid}
use tcslog.Tests.Data.{header_1}

decoded_known : from_bytes (to_bytes header_1) ≡ ok header_1
unfolding from_bytes to_bytes check_version from_tag tag fixed_len list_eq Bytes.from_le_bytes
decoded_known = refl

header_1-IsByte : All IsByte (to_bytes header_1)
unfolding to_bytes tag fixed_len
header_1-IsByte = ground arith

from_bytes-IsValid_example : IsValid header_1
from_bytes-IsValid_example =
    from_bytes-IsValid (to_bytes header_1) header_1 header_1-IsByte decoded_known

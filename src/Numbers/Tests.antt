-- ===== src/Numbers/Tests.antt =====
-- The theorems about numbers as text at concrete numbers.
use blockos.Prelude.{◌≡◌, arith}
use blockos.Numbers.{atoi, itoa}
use blockos.Numbers.Roundtrip.{atoi-itoa}

-- The number is minus one.
atoi-itoa_example : atoi (itoa 4294967295 10) ≡ 4294967295
atoi-itoa_example = atoi-itoa 4294967295 (omega arith) (omega arith)

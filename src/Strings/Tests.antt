-- ===== src/Strings/Tests.antt =====
-- The theorems about strings at concrete strings.
use blockos.Prelude.{◌≡◌, arith, bytes_of}
use blockos.Strings.Tokens.{all_tokens, words, all_tokens-eq-words}

all_tokens-eq-words_example :
    all_tokens 8 (bytes_of "/") (bytes_of "//usr/cc") ≡ words (bytes_of "/") (bytes_of "//usr/cc")
all_tokens-eq-words_example =
    all_tokens-eq-words 8 (bytes_of "/") (bytes_of "//usr/cc") (omega arith)

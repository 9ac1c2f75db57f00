-- ===== src/Tests/Text.antt =====
-- Include/util/string.hpp on small inputs.
use hzrobot.Prelude.{c_str, true, false, ◌≡◌, refl, arith, codes, isalnum}
use hzrobot.Text.Base64.{encode_base64, decode_base64}
use hzrobot.Text.Base64.RoundTrip.{decode_base64-encode_base64}
use hzrobot.Text.Url.{encode_url, decode_url}
use hzrobot.Text.Url.Tables.{url_encode_table, url_decode_table}
use hzrobot.Text.Url.RoundTrip.{decode_url-encode_url}

encode_light : encode_base64 (codes "light w") ≡ codes "bGlnaHQgdw=="
unfolding encode_base64
encode_light = refl

decode_light : decode_base64 (codes "bGlnaHQgdw==") ≡ codes "light w"
unfolding decode_base64 isalnum
decode_light = refl

decode_base64-encode_base64_example :
    decode_base64 (encode_base64 (codes "light w")) ≡ codes "light w"
decode_base64-encode_base64_example = decode_base64-encode_base64 (codes "light w") (omega arith)

encode_path : encode_url (codes "/a b#1") ≡ codes "/a%20b%231"
unfolding encode_url c_str url_encode_table
encode_path = refl

decode_path :
    (decode_url (codes "/a%20b%231") ≡ (true, codes "/a b#1"))
    × (decode_url (codes "ab%2") ≡ (false, codes "ab"))
unfolding decode_url c_str isalnum url_decode_table
decode_path = (refl, refl)

decode_url-encode_url_example :
    decode_url (encode_url (codes "/a b")) ≡ (true, c_str (codes "/a b"))
decode_url-encode_url_example = decode_url-encode_url (codes "/a b") (omega arith)

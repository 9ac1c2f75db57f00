-- ===== src/Tests/Package.antt =====
-- Include/util/tool.hpp on small inputs.
use hzrobot.Prelude.{ℕ, List, [], ◌∷◌, ◌++◌, ◌≡◌, refl, arith, length}
use hzrobot.Package.{
  Package, encode_size, decode_size, done, encode_package, decode_package, unpacked,
}
use hzrobot.Package.RoundTrip.{decode_size-encode_size, decode_package-encode_package}

encode_300 : encode_size 300 ≡ 172 ∷ 2 ∷ []
unfolding encode_size
encode_300 = refl

decode_300 : decode_size (172 ∷ 2 ∷ 9 ∷ []) ≡ done 300 2
unfolding decode_size
decode_300 = refl

decode_size-encode_size_example :
    decode_size (encode_size 300 ++ 9 ∷ []) ≡ done 300 (length (encode_size 300))
decode_size-encode_size_example = decode_size-encode_size 300 (9 ∷ []) (omega arith)

abbrev sample : Package
sample = record { length = 70000; identify = 5 }

decode_package-encode_package_example :
    decode_package (encode_package sample ++ 1 ∷ [])
    ≡ unpacked sample (length (encode_package sample))
decode_package-encode_package_example =
    decode_package-encode_package sample (1 ∷ []) (omega arith) (omega arith)

abbrev ten : List ℕ
ten = 255 ∷ 128 ∷ 129 ∷ 130 ∷ 131 ∷ 132 ∷ 133 ∷ 134 ∷ 135 ∷ 136 ∷ []

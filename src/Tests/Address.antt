-- ===== src/Tests/Address.antt =====
-- Addresses as texts.
use hzrobot.Prelude.{
  ℕ, zero, suc, true, false, [], ◌∷◌, Bytes, codes, c_str, length, ◌≡◌, refl, arith,
}
use hzrobot.Text.Search.{find, find_first, starts_with}
use hzrobot.Net.Address.{AddressInfo, get_address_string, parse_addr, parse_addr-get_address_string}

abbrev info : AddressInfo
info = record { ip = codes "10.0.0.1"; port = 3; v6 = false }

abbrev print : ℕ → Bytes
print zero = []
print (suc n) = b'1' ∷ print n

parse_addr-get_address_string_example :
    parse_addr length (get_address_string print info) (record { ip = []; port = 0; v6 = false })
    ≡ (true, info)
unfolding c_str
parse_addr-get_address_string_example =
    parse_addr-get_address_string length print info (record { ip = []; port = 0; v6 = false })
      (λ e. absurd cc) (ground arith) (omega arith) refl

-- A text without a colon leaves the address alone.
no_colon : parse_addr length (codes "host") info ≡ (false, info)
unfolding parse_addr find find_first starts_with
no_colon = refl

-- ===== src/Net/Address.antt =====
-- `address_info_t` and `parse_addr` of Include/net/socket.hpp.
use hzrobot.Prelude.{
  ℕ, suc, ◌%◌, ◌^◌, ◌<◌, Bool, true, false, some, none, [], ◌∷◌, ◌++◌, Bytes, codes, c_str, take,
  drop, take-append, ◌≡◌, ◌≢◌, refl, ap, arith,
}
use hzrobot.Text.Search.{find}
use hzrobot.Text.Search.Chars.{Lacks, find-at, drop-at}

pub record AddressInfo : Type 0 where
  pub ip : Bytes
  pub port : ℕ
  pub v6 : Bool

-- `print` is `snprintf` with the number's format.
unfoldable pub get_address_string : (ℕ → Bytes) → AddressInfo → Bytes
get_address_string print info = info.ip ++ b':' ∷ print info.port

abbrev pub is_given : Bytes → Bool
is_given [] = false
is_given (c ∷ cs) = true

-- The value and what `ret` holds then. `atoi` is the C library's, whose `int` is its 32 bits.
unfoldable pub parse_addr : (Bytes → ℕ) → Bytes → AddressInfo → Bool × AddressInfo
parse_addr atoi addr ret = elim (find addr (codes ":") 0) [
  | none ↦ (false, ret)
  | some pos ↦ (
    is_given (take pos addr),
    record ret { ip = take pos addr; port = atoi (c_str (drop (suc pos) addr)) % 2 ^ 16 },
  )
]

-- The text of an address with a host that is not empty and has no ':' is read as the address,
-- where `atoi` reads back the text of its port.
pub parse_addr-get_address_string :
    (atoi : Bytes → ℕ) (print : ℕ → Bytes) (info ret : AddressInfo)
    → info.ip ≢ []
    → Lacks b':' info.ip
    → info.port < 2 ^ 16
    → atoi (c_str (print info.port)) ≡ info.port
    → parse_addr atoi (get_address_string print info) ret ≡ (true, record info { v6 = ret.v6 })
unfolding parse_addr get_address_string
parse_addr-get_address_string atoi print info ret given plain fits reads_back =
    let pos = find-at b':' info.ip (print info.port) plain in
    let text = take-append info.ip (b':' ∷ print info.port) in
    let number : atoi (c_str (print info.port)) % 2 ^ 16 ≡ info.port =
      omega (arith, reads_back, fits) in
    rw (pos, parse_addr)
      (rw text (
        rw (drop-at info.ip (print info.port) b':')
          (rw number (ap (λ b. (b, record info { v6 = ret.v6 })) (is_given_lem info.ip given)))))
  where
    is_given_lem : (xs : Bytes) → xs ≢ [] → is_given xs ≡ true
    is_given_lem [] h = absurd (h refl)
    is_given_lem (x ∷ xs) h = refl

-- ===== src/Text/Base64/Bits.antt =====
-- The masks and shifts of the Base64 code of Include/util/string.hpp, as arithmetic.
use hzrobot.Prelude.{
  ℕ, ◌+◌, ◌*◌, ◌/◌, ◌%◌, ◌<◌, bit_and, ◌≡◌, refl, Bool, not, true, ◌&&◌, ◌==◌, arith, passes_below,
  passes_below-apply, [], ◌∷◌, isalnum,
}
use hzrobot.Text.Base64.{char_of, is_base64, index_of, sextets, octets}

abbrev byte_masks : ℕ → Bool
byte_masks x =
    bit_and x 0xfc / 4 == x / 4
    && bit_and x 0x03 == x % 4
    && bit_and x 0xf0 / 16 == x / 16
    && bit_and x 0x0f == x % 16
    && bit_and x 0xc0 / 64 == x / 64
    && bit_and x 0x3f == x % 64

byte_masks_table : passes_below byte_masks 256 ≡ true
unfolding passes_below
byte_masks_table = refl

pub bit_and_byte :
    (x : ℕ)
    → x < 256
    → (bit_and x 0xfc / 4 ≡ x / 4)
      × (bit_and x 0x03 ≡ x % 4)
      × (bit_and x 0xf0 / 16 ≡ x / 16)
      × (bit_and x 0x0f ≡ x % 16)
      × (bit_and x 0xc0 / 64 ≡ x / 64)
      × (bit_and x 0x3f ≡ x % 64)
bit_and_byte x h = ground (arith, passes_below-apply byte_masks byte_masks_table x h)

abbrev sextet_masks : ℕ → Bool
sextet_masks x =
    bit_and x 0x30 / 16 == x / 16
    && bit_and x 0x0f == x % 16
    && bit_and x 0x3c / 4 == x / 4
    && bit_and x 0x03 == x % 4

sextet_masks_table : passes_below sextet_masks 64 ≡ true
unfolding passes_below
sextet_masks_table = refl

pub bit_and_sextet :
    (x : ℕ)
    → x < 64
    → (bit_and x 0x30 / 16 ≡ x / 16)
      × (bit_and x 0x0f ≡ x % 16)
      × (bit_and x 0x3c / 4 ≡ x / 4)
      × (bit_and x 0x03 ≡ x % 4)
bit_and_sextet x h = ground (arith, passes_below-apply sextet_masks sextet_masks_table x h)

abbrev alphabet : ℕ → Bool
alphabet i = index_of (char_of i) == i && not (char_of i == b'=') && is_base64 (char_of i)

alphabet_table : passes_below alphabet 64 ≡ true
unfolding passes_below index_of char_of is_base64 isalnum
alphabet_table = refl

pub index_of-char_of :
    (i : ℕ)
    → i < 64
    → (index_of (char_of i) ≡ i) × ((not (char_of i == b'=') && is_base64 (char_of i)) ≡ true)
index_of-char_of i h = ground (arith, passes_below-apply alphabet alphabet_table i h)

-- Three bytes as four numbers below 64.
pub sextets_lem :
    (a b c : ℕ)
    → a < 256
    → b < 256
    → c < 256
    → sextets a b c ≡ (a / 4) ∷ (a % 4 * 16 + b / 16) ∷ (b % 16 * 4 + c / 64) ∷ (c % 64) ∷ []
unfolding sextets
sextets_lem a b c ha hb hc = ground (arith, bit_and_byte a ha, bit_and_byte b hb, bit_and_byte c hc)

-- `char_array_3` gets the three bytes back.
pub octets_sextets :
    (a b c : ℕ)
    → a < 256
    → b < 256
    → c < 256
    → octets (a / 4) (a % 4 * 16 + b / 16) (b % 16 * 4 + c / 64) (c % 64) ≡ a ∷ b ∷ c ∷ []
unfolding octets
octets_sextets a b c ha hb hc = ground (
  arith,
  bit_and_sextet (a % 4 * 16 + b / 16) (omega arith),
  bit_and_sextet (b % 16 * 4 + c / 64) (omega arith),
)

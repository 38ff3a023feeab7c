-- ===== src/Redaction/Numbers.antt =====
-- detectors.rs and entropy.rs: the tests on numbers and on hexadecimal identifiers.
use hidden_steps.Prelude.{
  Bool, Option, Text, [], false, if◌then◌else◌, keep, leb, length, ltb, none, not, some, unwrap_or,
  ℕ, ◌&&◌, ◌*◌, ◌+◌, ◌-◌, ◌==◌, ◌^◌, ◌||◌, ◌∷◌,
}
use hidden_steps.Redaction.Luhn.{is_ascii_digit}

abbrev u32_max : ℕ
u32_max = 2 ^ 32 - 1

-- The digit loop of `str::parse::<u32>`: an overflow is an error.
parse_digits : ℕ → Text → Option ℕ
unfolding is_ascii_digit
parse_digits n [] = some n
parse_digits n (c ∷ s) =
    let m = n * 10 + (c - 48) in
    let rest = parse_digits m s in
    if not (is_ascii_digit c) then none else if ltb u32_max m then none else rest

-- A leading plus sign is accepted, an empty number is not.
unfoldable pub parse_u32 : Text → Option ℕ
unfolding parse_digits
parse_u32 [] = none
parse_u32 (c ∷ []) = parse_digits 0 (c ∷ [])
parse_u32 (c ∷ d ∷ s) = parse_digits 0 (if c == b'+' then d ∷ s else c ∷ d ∷ s)

unfoldable pub is_plausible_ssn : Text → Text → Text → Bool
unfolding parse_u32
is_plausible_ssn area_text group_text serial_text =
    let area = unwrap_or (parse_u32 area_text) 0 in
    let group = unwrap_or (parse_u32 group_text) 0 in
    let serial = unwrap_or (parse_u32 serial_text) 0 in
    not (area == 0) && not (area == 666) && ltb area 900 && not (group == 0) && not (serial == 0)

-- `char::is_ascii_hexdigit`
unfoldable pub is_ascii_hexdigit : ℕ → Bool
is_ascii_hexdigit c =
    leb b'0' c && leb c b'9' || leb b'a' c && leb c b'f' || leb b'A' c && leb c b'F'

-- A character counts once, whatever its bytes; the byte length is compared with the count.
unfoldable pub looks_like_common_hex_id : Text → Bool
unfolding is_ascii_hexdigit
looks_like_common_hex_id s =
    let hex_len = length (keep is_ascii_hexdigit s) in
    let len = length s in
    if not (hex_len == len)
    then false
    else len == 7 || len == 8 || len == 32 || len == 40 || len == 64

-- ===== src/Webhook/Ports.antt =====
-- validateFilterPortConfig and validatePortString: the ports of a flow filter, which are a number, or a
-- text that has a port, two ports or a range of ports.
pub mod Digits
pub mod Forms
pub mod Accepted
use netobserv_operator.Base.{
  ℕ, ◌+◌, ◌*◌, ◌-◌, Bool, true, false, not, Option, none, some, List, [], ◌∷◌, Text, ◌==◌, ltb, leb,
  if◌then◌else◌, ◌&&◌, ◌||◌, ℤ, decimal_ℤ, Result, ok, err,
}

-- strconv.ParseUint(s, 10, 16): the first byte that is no digit, or that leads out of range, decides.
pub data NumberError : Type 0 where
  syntax : NumberError
  range : NumberError

unfoldable pub is_digit : ℕ → Bool
is_digit c = leb b'0' c && leb c b'9'

unfoldable pub parse_digits : ℕ → Text → Result NumberError ℕ
unfolding is_digit
parse_digits n [] = ok n
parse_digits n (c ∷ s) =
    let n' = n * 10 + (c - b'0') in
    let rest = parse_digits n' s in
    if not (is_digit c) then err syntax else if ltb 65535 n' then err range else rest

unfoldable pub parse_uint16 : Text → Result NumberError ℕ
parse_uint16 [] = err syntax
parse_uint16 (c ∷ s) = parse_digits 0 (c ∷ s)

pub data PortError : Type 0 where
  invalid_number : NumberError → PortError
  port_zero : PortError

unfoldable pub validate_port_string : Text → Result PortError ℕ
validate_port_string s = elim (parse_uint16 s) [
  | err e ↦ err (invalid_number e)
  | ok p ↦ if p == 0 then err port_zero else ok p
]

-- strings.Contains, strings.SplitN(s, sep, 2) and strings.Split for a separator of one byte
unfoldable pub contains_byte : ℕ → Text → Bool
contains_byte sep [] = false
contains_byte sep (c ∷ s) = (c == sep) || contains_byte sep s

unfoldable pub prepend : ℕ → List Text → List Text
prepend c [] = (c ∷ []) ∷ []
prepend c (s ∷ rest) = (c ∷ s) ∷ rest

unfoldable pub split_in_two : ℕ → Text → List Text
split_in_two sep [] = [] ∷ []
split_in_two sep (c ∷ s) =
    let rest = split_in_two sep s in if c == sep then [] ∷ s ∷ [] else prepend c rest

unfoldable pub split : ℕ → Text → List Text
split sep [] = [] ∷ []
split sep (c ∷ s) = let rest = split sep s in if c == sep then [] ∷ rest else prepend c rest

-- intstr.IntOrString
pub record IntOrString : Type 0 where
  pub is_int : Bool  -- Type == Int
  pub int_val : ℤ
  pub str_val : Text

unfoldable pub string : IntOrString → Text
string v = if v.is_int then decimal_ℤ v.int_val else v.str_val

pub data FilterPortError : Type 0 where
  range_not_two : FilterPortError
  start_port : PortError → FilterPortError
  end_port : PortError → FilterPortError
  start_not_below_end : FilterPortError
  couple_not_two : FilterPortError
  first_port : PortError → FilterPortError
  second_port : PortError → FilterPortError
  single_port : PortError → FilterPortError

unfoldable pub validate_range : List Text → Option FilterPortError
validate_range (s ∷ t ∷ []) = elim (validate_port_string s) [
  | err e ↦ some (start_port e)
  | ok start ↦ elim (validate_port_string t) [
    | err e ↦ some (end_port e)
    | ok end ↦ if leb end start then some start_not_below_end else none
  ]
]
validate_range _ = some range_not_two

unfoldable pub validate_couple : List Text → Option FilterPortError
validate_couple (s ∷ t ∷ []) = elim (validate_port_string s) [
  | err e ↦ some (first_port e)
  | ok _ ↦ elim (validate_port_string t) [ err e ↦ some (second_port e) | ok _ ↦ none ]
]
validate_couple _ = some couple_not_two

unfoldable pub validate_single : Text → Option FilterPortError
validate_single s = elim (validate_port_string s) [ err e ↦ some (single_port e) | ok _ ↦ none ]

unfoldable pub validate_port_text : Text → Option FilterPortError
validate_port_text s =
    if contains_byte b'-' s
    then validate_range (split_in_two b'-' s)
    else if contains_byte b',' s
    then validate_couple (split b',' s)
    else validate_single s

unfoldable pub validate_filter_port_config : IntOrString → Option FilterPortError
unfolding validate_port_text
validate_filter_port_config v = if v.is_int then none else validate_port_text (string v)

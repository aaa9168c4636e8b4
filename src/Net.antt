-- ===== src/Net.antt =====
-- The parts of `std::net` and `std::time` that the source uses: `Ipv4Addr` with its octets and its
-- textual form, and instants as nanoseconds since a fixed origin.
use Prim.Native.Char.{Char, code}
use Prim.Native.String.{String}
use secure_connect_connector.Base.{
  Bool, Key, List, Option, [], if◌then◌else◌, leb, ltb, nat_key, none, some, suc, zero, ℕ,
  ℕ_discrete, ◌%◌, ◌&&◌, ◌*◌, ◌+◌, ◌-◌, ◌/◌, ◌==◌, ◌∷◌,
}

pub record Ipv4Addr : Type 0 where
  pub a : ℕ
  pub b : ℕ
  pub c : ℕ
  pub d : ℕ

unfoldable pub Ipv4Addr-discrete : Discrete Ipv4Addr
unfolding ℕ_discrete
Ipv4Addr-discrete = hlevel ℕ_discrete

instance abbrev pub ipv4_key : Key Ipv4Addr
ipv4_key = record { discrete = Ipv4Addr-discrete }

-- Its code points, which are its bytes where it is ASCII.
abbrev pub codes : String → List ℕ
codes String.[] = []
codes (String.◌∷◌ c s) = code c ∷ codes s

-- The text between dots, the first part first.
split_dots : List ℕ → List (List ℕ)
split_dots [] = [] ∷ []
split_dots (c ∷ cs) = elim (split_dots cs) [
  | [] ↦ (c ∷ []) ∷ []
  | part ∷ parts ↦ if c == b'.' then [] ∷ part ∷ parts else (c ∷ part) ∷ parts
]

is_digit : ℕ → Bool
is_digit c = leb b'0' c && leb c b'9'

-- One octet: one to three digits, no leading zero, at most 255.
parse_octet : List ℕ → Option ℕ
unfolding is_digit
parse_octet (x ∷ []) = if is_digit x then some (x - b'0') else none
parse_octet (x ∷ y ∷ []) =
    if is_digit x && is_digit y && ltb b'0' x then some ((x - b'0') * 10 + (y - b'0')) else none
parse_octet (x ∷ y ∷ z ∷ []) =
    let n = (x - b'0') * 100 + (y - b'0') * 10 + (z - b'0') in
    if is_digit x && is_digit y && is_digit z && ltb b'0' x && leb n 255 then some n else none
parse_octet _ = none

parse_octets : List (List ℕ) → Option Ipv4Addr
unfolding parse_octet
parse_octets (w ∷ x ∷ y ∷ z ∷ []) = elim (parse_octet w) [
  | none ↦ none
  | some a ↦ elim (parse_octet x) [
    | none ↦ none
    | some b ↦ elim (parse_octet y) [
      | none ↦ none
      | some c ↦ elim (parse_octet z) [
        | none ↦ none
        | some d ↦ some (record { a = a; b = b; c = c; d = d })
      ]
    ]
  ]
]
parse_octets _ = none

-- `str::parse::<Ipv4Addr>`
unfoldable pub parse_ipv4 : String → Option Ipv4Addr
unfolding split_dots parse_octets
parse_ipv4 s = parse_octets (split_dots (codes s))

-- `Duration::from_secs` in nanoseconds.
abbrev pub from_secs : ℕ → ℕ
from_secs n = n * 1_000_000_000

-- `Instant::duration_since`, which is zero where `earlier` is later.
abbrev pub duration_since : ℕ → ℕ → ℕ
duration_since now earlier = now - earlier

digit : ℕ → Char
digit n =
    if n == 0
    then "0"
    else if n == 1
    then "1"
    else if n == 2
    then "2"
    else if n == 3
    then "3"
    else if n == 4
    then "4"
    else if n == 5
    then "5"
    else if n == 6
    then "6"
    else if n == 7
    then "7"
    else if n == 8
    then "8"
    else "9"

decimal : ℕ → ℕ → String → String
unfolding digit
decimal zero n rest = rest
decimal (suc f) n rest =
    let here = String.◌∷◌ (digit (n % 10)) rest in
    let longer = decimal f (n / 10) here in if ltb n 10 then here else longer

-- How a `u16` is printed: five digits at most.
unfoldable pub show_u16 : ℕ → String
unfolding decimal
show_u16 n = decimal 5 n ""

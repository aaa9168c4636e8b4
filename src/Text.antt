-- ===== src/Text.antt =====
-- The parts of Rust's `str` that the source uses: trimming, and comparison without ASCII case.
use Prim.Native.Char.{code}
use Prim.Native.String.{String}
use secure_connect_connector.Base.{
  Bool, List, Option, [], and_then, arith, false, if◌then◌else◌, leb, nat_key, none, some, true, ℕ,
  ◌&&◌, ◌*◌, ◌+◌, ◌-◌, ◌==◌, ◌||◌, ◌∷◌, ◌≡◌, ◌≤◌,
}
use secure_connect_connector.Net.{codes}

-- `char::is_whitespace`: the characters with Unicode's property `White_Space`.
is_whitespace : ℕ → Bool
is_whitespace c =
    (leb 0x9 c && leb c 0xd)
    || c == 0x20
    || c == 0x85
    || c == 0xa0
    || c == 0x1680
    || (leb 0x2000 c && leb c 0x200a)
    || c == 0x2028
    || c == 0x2029
    || c == 0x202f
    || c == 0x205f
    || c == 0x3000

trim_start_where : (ℕ → Bool) → String → String
trim_start_where p String.[] = String.[]
trim_start_where p (String.◌∷◌ c s) = if p (code c) then trim_start_where p s else String.◌∷◌ c s

abbrev pub is_empty : String → Bool
is_empty String.[] = true
is_empty (String.◌∷◌ c s) = false

trim_end_where : (ℕ → Bool) → String → String
trim_end_where p String.[] = String.[]
trim_end_where p (String.◌∷◌ c s) =
    let rest = trim_end_where p s in
    if p (code c) && is_empty rest then String.[] else String.◌∷◌ c rest

-- `str::trim`
unfoldable pub trim : String → String
unfolding trim_start_where trim_end_where is_whitespace
trim s = trim_end_where is_whitespace (trim_start_where is_whitespace s)

-- `trim_end_matches('/')`
unfoldable pub trim_end_slashes : String → String
unfolding trim_end_where
trim_end_slashes s = trim_end_where (λ c. c == b'/') s

to_ascii_lowercase : ℕ → ℕ
to_ascii_lowercase c = if leb b'A' c && leb c b'Z' then c + 32 else c

same_codes : List ℕ → List ℕ → Bool
unfolding to_ascii_lowercase
same_codes [] [] = true
same_codes [] (d ∷ ds) = false
same_codes (c ∷ cs) [] = false
same_codes (c ∷ cs) (d ∷ ds) = to_ascii_lowercase c == to_ascii_lowercase d && same_codes cs ds

-- `str::eq_ignore_ascii_case`
unfoldable pub eq_ignore_ascii_case : String → String → Bool
unfolding same_codes
eq_ignore_ascii_case s t = same_codes (codes s) (codes t)

is_digit : ℕ → Bool
is_digit c = leb b'0' c && leb c b'9'

-- The value of some digits, after those that are read.
digits_value : List ℕ → ℕ → Option ℕ
unfolding is_digit
digits_value [] value = some value
digits_value (c ∷ cs) value =
    let rest = digits_value cs (value * 10 + (c - b'0')) in if is_digit c then rest else none

at_most : ℕ → ℕ → Option ℕ
at_most max value = if leb value max then some value else none

digits_at_most : ℕ → List ℕ → Option ℕ
unfolding digits_value at_most
digits_at_most max [] = none
digits_at_most max (c ∷ cs) = and_then (digits_value (c ∷ cs) 0) (at_most max)

without_plus : List ℕ → List ℕ
without_plus [] = []
without_plus (c ∷ cs) = if c == b'+' then cs else c ∷ cs

-- `str::parse` at an unsigned integer with a largest value: digits, after a `+` or none.
unfoldable pub parse_unsigned : ℕ → String → Option ℕ
unfolding without_plus digits_at_most
parse_unsigned max s = digits_at_most max (without_plus (codes s))

at_most-bound : (max value n : ℕ) → at_most max value ≡ some n → n ≤ max
unfolding at_most
at_most-bound max value n h = ground arith

pub parse_unsigned-bound : (max n : ℕ) (s : String) → parse_unsigned max s ≡ some n → n ≤ max
unfolding parse_unsigned digits_at_most
parse_unsigned-bound max n s h = digits_bound (without_plus (codes s)) h
  where
    value_bound : (o : Option ℕ) → and_then o (at_most max) ≡ some n → n ≤ max
    value_bound none h = absurd (cc h)
    value_bound (some value) h = at_most-bound max value n h

    digits_bound : (cs : List ℕ) → digits_at_most max cs ≡ some n → n ≤ max
    digits_bound [] h = absurd (cc h)
    digits_bound (c ∷ cs) h = value_bound (digits_value (c ∷ cs) 0) h

starts_with : List ℕ → List ℕ → Bool
starts_with [] cs = true
starts_with (p ∷ ps) [] = false
starts_with (p ∷ ps) (c ∷ cs) = p == c && starts_with ps cs

occurs_in : List ℕ → List ℕ → Bool
unfolding starts_with
occurs_in pattern [] = starts_with pattern []
occurs_in pattern (c ∷ cs) = starts_with pattern (c ∷ cs) || occurs_in pattern cs

-- `str::contains`, of the pattern that is given first.
unfoldable pub contains : String → String → Bool
unfolding occurs_in
contains pattern s = occurs_in (codes pattern) (codes s)

-- ===== src/Sorting/Orders.antt =====
-- The order of `str`, by code points, which is that of the bytes, and the order of a pair of a text
-- and an optional text, `None` first.
use Prim.Native.Char.{code}
use Prim.Native.String.{String}
use text.Mathlib.TextEquality.{Char-path}
use secure_connect_connector.Sorting.{Order}
use secure_connect_connector.Base.{
  Bool, Option, ap, arith, false, leb, ltb, none, not, refl, some, true, ◌&&◌, ◌||◌, ◌≡◌,
}

unfoldable pub str_le : String → String → Bool
str_le String.[] t = true
str_le (String.◌∷◌ c s) String.[] = false
str_le (String.◌∷◌ c s) (String.◌∷◌ d t) =
    ltb (code c) (code d) || (leb (code c) (code d) && str_le s t)

pub str_le-total : (s t : String) → str_le s t ≡ false → str_le t s ≡ true
unfolding str_le
str_le-total String.[] t h = cc h
str_le-total (String.◌∷◌ c s) String.[] h = refl
str_le-total (String.◌∷◌ c s) (String.◌∷◌ d t) h = ground (arith, str_le-total s t)

pub str_le_trans : (s t u : String) → str_le s t ≡ true → str_le t u ≡ true → str_le s u ≡ true
unfolding str_le
str_le_trans String.[] t u h k = refl
str_le_trans (String.◌∷◌ c s) String.[] u h k = cc h
str_le_trans (String.◌∷◌ c s) (String.◌∷◌ d t) String.[] h k = cc k
str_le_trans (String.◌∷◌ c s) (String.◌∷◌ d t) (String.◌∷◌ e u) h k =
    ground (arith, str_le_trans s t u)

pub str_le-antisym : (s t : String) → str_le s t ≡ true → str_le t s ≡ true → s ≡ t
unfolding str_le
str_le-antisym String.[] String.[] h k = refl
str_le-antisym String.[] (String.◌∷◌ d t) h k = cc k
str_le-antisym (String.◌∷◌ c s) String.[] h k = cc h
str_le-antisym (String.◌∷◌ c s) (String.◌∷◌ d t) h k =
    let same : code c ≡ code d = ground arith in
    let tails : s ≡ t = str_le-antisym s t (ground arith) (ground arith) in
    cc (Char-path c d same, tails)

instance abbrev pub string_order : Order String
string_order = record {
  le = str_le;
  total = str_le-total;
  trans = str_le_trans;
  antisym = str_le-antisym;
}

option_le : Option String → Option String → Bool
option_le none o = true
option_le (some s) none = false
option_le (some s) (some t) = str_le s t

option_le-total : (o p : Option String) → option_le o p ≡ false → option_le p o ≡ true
unfolding option_le
option_le-total none p h = cc h
option_le-total (some s) none h = refl
option_le-total (some s) (some t) h = str_le-total s t h

option_le_trans :
    (o p q : Option String) → option_le o p ≡ true → option_le p q ≡ true → option_le o q ≡ true
unfolding option_le
option_le_trans none p q h k = refl
option_le_trans (some s) none q h k = cc h
option_le_trans (some s) (some t) none h k = cc k
option_le_trans (some s) (some t) (some u) h k = str_le_trans s t u h k

option_le-antisym : (o p : Option String) → option_le o p ≡ true → option_le p o ≡ true → o ≡ p
unfolding option_le
option_le-antisym none none h k = refl
option_le-antisym none (some t) h k = cc k
option_le-antisym (some s) none h k = cc h
option_le-antisym (some s) (some t) h k = ap some (str_le-antisym s t h k)

-- Lexicographic: the second parts decide where the first are equal.
unfoldable pub pair_le : String × Option String → String × Option String → Bool
unfolding option_le
pair_le (s, o) (t, p) = str_le s t && (not (str_le t s) || option_le o p)

pub pair_le-total : (x y : String × Option String) → pair_le x y ≡ false → pair_le y x ≡ true
unfolding pair_le
pair_le-total (s, o) (t, p) h =
    ground (arith, str_le-total s t, str_le-total t s, option_le-total o p)

pub pair_le_trans :
    (x y z : String × Option String) → pair_le x y ≡ true → pair_le y z ≡ true → pair_le x z ≡ true
unfolding pair_le
pair_le_trans (s, o) (t, p) (u, q) h k =
    ground
      (arith, str_le_trans s t u, str_le_trans t u s, str_le_trans u s t, option_le_trans o p q)

pub pair_le-antisym :
    (x y : String × Option String) → pair_le x y ≡ true → pair_le y x ≡ true → x ≡ y
unfolding pair_le
pair_le-antisym (s, o) (t, p) h k =
    let first : s ≡ t = str_le-antisym s t (ground arith) (ground arith) in
    let second : o ≡ p = option_le-antisym o p (ground arith) (ground arith) in cc (first, second)

instance abbrev pub pair_order : Order (String × Option String)
pair_order = record {
  le = pair_le;
  total = pair_le-total;
  trans = pair_le_trans;
  antisym = pair_le-antisym;
}

-- ===== src/Mac.antt =====
-- BLE addresses: `normalize_mac` of custom_components/nimly_manager/ble_setup.py, with the regular
-- expression it ends in.
pub mod Endings
pub mod Laws
use nimly_manager.Base.{
  ℕ, zero, suc, ◌-◌, Bool, true, false, not, ◌&&◌, ◌||◌, Option, none, some, List, [], ◌∷◌, ◌++◌,
  ◌==◌, within, length, if◌then◌else◌,
}
use nimly_manager.Text.{Text, strip}
use nimly_manager.Text.Trim.{has}

-- str.upper on one code point, where its capitals can stand in an address: U+FB00 has two. The
-- capitals of every code point that is left alone hold a character that no address has.
unfoldable pub upper_point : ℕ → Text
upper_point c =
    if within b'a' b'z' c then (c - 32) ∷ [] else if c == 0xfb00 then b'F' ∷ b'F' ∷ [] else c ∷ []

unfoldable pub upper : Text → Text
unfolding upper_point
upper [] = []
upper (c ∷ cs) = upper_point c ++ upper cs

-- s.replace("-", ":")
unfoldable pub colons : Text → Text
colons [] = []
colons (c ∷ cs) = (if c == b'-' then b':' else c) ∷ colons cs

-- ":".join(s[i : i + 2] for i in range(0, len(s), 2))
unfoldable pub join_pairs : Text → Text
join_pairs (a ∷ b ∷ c ∷ cs) = a ∷ b ∷ b':' ∷ join_pairs (c ∷ cs)
join_pairs (a ∷ b ∷ []) = a ∷ b ∷ []
join_pairs (a ∷ []) = a ∷ []
join_pairs [] = []

-- [0-9A-F]
abbrev pub is_digit : ℕ → Bool
is_digit c = within b'0' b'9' c || within b'A' b'F' c

-- `$`, which also stands before a newline that ends the text
abbrev pub ends : Text → Bool
ends [] = true
ends (c ∷ []) = c == 10
ends (c ∷ d ∷ s) = false

-- A pair, then so many pairs after a colon each, then the end.
unfoldable pub pairs : ℕ → Text → Bool
pairs zero (a ∷ b ∷ s) = is_digit a && (is_digit b && ends s)
pairs (suc n) (a ∷ b ∷ c ∷ s) = is_digit a && (is_digit b && (c == b':' && pairs n s))
pairs zero (a ∷ []) = false
pairs zero [] = false
pairs (suc n) (a ∷ b ∷ []) = false
pairs (suc n) (a ∷ []) = false
pairs (suc n) [] = false

-- MAC_RE.match
unfoldable pub mac_re : Text → Bool
unfolding pairs
mac_re s = pairs 5 s

-- The address with colons, where it has none.
unfoldable pub with_colons : Text → Text
unfolding has join_pairs
with_colons s = if length s == 12 && not (has b':' s) then join_pairs s else s

unfoldable pub normalize_mac : Text → Option Text
unfolding upper colons with_colons mac_re
normalize_mac value =
    let cleaned = with_colons (colons (upper (strip value))) in
    if mac_re cleaned then some cleaned else none

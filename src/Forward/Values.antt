-- ===== src/Forward/Values.antt =====
-- node/src/eth_forward.rs: JSON values as the forwarder reads them, and the quantities that it parses and
-- prints.
use Prim.Native.Char.{code}
use Prim.Native.String.{String, compare, ◌++◌}
use Prim.Native.Nat.{Ordering, lt, eq, gt}
use numen.Prelude.{
  ℕ, zero, suc, ◌+◌, ◌-◌, ◌*◌, ◌/◌, ◌%◌, ◌^◌, Bool, true, false, Option, none, some, List, [], ◌∷◌,
  leb, ◌==◌, ◌&&◌, if◌then◌else◌,
}

-- A number or a Boolean is an opaque `scalar`.
mutual
  pub data Value : Type 0 where
    null : Value
    scalar : ℕ → Value
    string : String → Value
    array : Items → Value
    object : Fields → Value

  pub data Items : Type 0 where
    nil : Items
    item : Value → Items → Items

  pub data Fields : Type 0 where
    end : Fields
    field : String → Value → Fields → Fields

abbrev is_eq : Ordering → Bool
is_eq lt = false
is_eq eq = true
is_eq gt = false

abbrev pub same : String → String → Bool
same s t = is_eq (compare s t)

abbrev pub get : String → Fields → Option Value
get key end = none
get key (field name value rest) =
    let later = get key rest in if same name key then some value else later

abbrev pub insert : String → Value → Fields → Fields
insert key value end = field key value end
insert key value (field name old rest) =
    let later = insert key value rest in
    if same name key then field name value rest else field name old later

abbrev pub nth : ℕ → Items → Option Value
nth n nil = none
nth zero (item value rest) = some value
nth (suc n) (item value rest) = nth n rest

abbrev pub append : Items → Items → Items
append nil others = others
append (item value rest) others = item value (append rest others)

abbrev pub codes : String → List ℕ
codes String.[] = []
codes (String.◌∷◌ c s) = code c ∷ codes s

abbrev pub u64_max : ℕ
u64_max = 2 ^ 64 - 1

abbrev hex_digit : ℕ → Option ℕ
hex_digit c =
    if leb b'0' c && leb c b'9'
    then some (c - b'0')
    else if leb b'a' c && leb c b'f'
    then some (c - b'a' + 10)
    else if leb b'A' c && leb c b'F'
    then some (c - b'A' + 10)
    else none

abbrev shifted : ℕ → Option ℕ → Option ℕ
shifted sum none = none
shifted sum (some digit) = if leb (sum * 16 + digit) u64_max then some (sum * 16 + digit) else none

abbrev digits : Option ℕ → List ℕ → Option ℕ
digits none cs = none
digits (some sum) [] = some sum
digits (some sum) (c ∷ cs) = digits (shifted sum (hex_digit c)) cs

-- `u64::from_str_radix` at 16, which takes a leading plus.
abbrev from_hex : List ℕ → Option ℕ
from_hex [] = none
from_hex (c ∷ []) = digits (some 0) (c ∷ [])
from_hex (c ∷ d ∷ cs) = if c == b'+' then digits (some 0) (d ∷ cs) else digits (some 0) (c ∷ d ∷ cs)

abbrev strip_prefix : List ℕ → Option (List ℕ)
strip_prefix (a ∷ b ∷ rest) = if a == b'0' && b == b'x' then some rest else none
strip_prefix _ = none

abbrev from_prefixed : Option (List ℕ) → Option ℕ
from_prefixed none = none
from_prefixed (some cs) = from_hex cs

unfoldable pub parse_quantity : String → Option ℕ
parse_quantity text = from_prefixed (strip_prefix (codes text))

abbrev pick : List String → ℕ → String
pick [] n = ""
pick (text ∷ rest) zero = text
pick (text ∷ rest) (suc n) = pick rest n

abbrev nibble : ℕ → String
nibble n =
    pick
      ("0" ∷ "1" ∷ "2" ∷ "3" ∷ "4" ∷ "5" ∷ "6" ∷ "7" ∷ "8" ∷ "9" ∷ "a" ∷ "b" ∷ "c" ∷ "d" ∷ "e" ∷ "f"
        ∷ [])
      n

-- The digits of a number before a text, sixteen at most.
abbrev hex_digits : ℕ → ℕ → String → String
hex_digits zero n text = text
hex_digits (suc fuel) n text = elim (n / 16 == 0) [
  | true ↦ nibble (n % 16) ++ text
  | false ↦ hex_digits fuel (n / 16) (nibble (n % 16) ++ text)
]

unfoldable pub quantity : ℕ → Value
quantity number = string ("0x" ++ hex_digits 16 number "")

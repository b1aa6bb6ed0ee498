-- ===== src/Erc20/Literals.antt =====
-- runtime/src/balances_erc20.rs: its constants, and the texts that its permits are signed over.
use numen.Prelude.{ℕ, ◌-◌, ◌*◌, ◌^◌, List, [], ◌∷◌}

abbrev pub slot : ℕ
slot = 0x0802

-- The two bytes of the slot at an offset of an address of twenty bytes.
abbrev pub slot_address : ℕ → ℕ
slot_address at = slot * 2 ^ (8 * (18 - at))

abbrev pub token_address : ℕ
token_address = slot_address 18

abbrev pub precompile : ℕ
precompile = slot_address 16

abbrev pub decimals : ℕ
decimals = 18

abbrev pub name : List ℕ
name = b'N' ∷ b'u' ∷ b'm' ∷ b'e' ∷ b'n' ∷ []

abbrev pub symbol : List ℕ
symbol = b'N' ∷ b'U' ∷ b'M' ∷ b'N' ∷ []

abbrev pub version : List ℕ
version = b'1' ∷ []

abbrev pub permit_type : List ℕ
permit_type =
    b'P' ∷ b'e' ∷ b'r' ∷ b'm' ∷ b'i' ∷ b't' ∷ b'(' ∷ b'a' ∷ b'd' ∷ b'd' ∷ b'r' ∷ b'e' ∷ b's' ∷ b's'
    ∷ b' ' ∷ b'o' ∷ b'w' ∷ b'n' ∷ b'e' ∷ b'r' ∷ b',' ∷ b'a' ∷ b'd' ∷ b'd' ∷ b'r' ∷ b'e' ∷ b's'
    ∷ b's' ∷ b' ' ∷ b's' ∷ b'p' ∷ b'e' ∷ b'n' ∷ b'd' ∷ b'e' ∷ b'r' ∷ b',' ∷ b'u' ∷ b'i' ∷ b'n'
    ∷ b't' ∷ b'2' ∷ b'5' ∷ b'6' ∷ b' ' ∷ b'v' ∷ b'a' ∷ b'l' ∷ b'u' ∷ b'e' ∷ b',' ∷ b'u' ∷ b'i'
    ∷ b'n' ∷ b't' ∷ b'2' ∷ b'5' ∷ b'6' ∷ b' ' ∷ b'n' ∷ b'o' ∷ b'n' ∷ b'c' ∷ b'e' ∷ b',' ∷ b'u'
    ∷ b'i' ∷ b'n' ∷ b't' ∷ b'2' ∷ b'5' ∷ b'6' ∷ b' ' ∷ b'd' ∷ b'e' ∷ b'a' ∷ b'd' ∷ b'l' ∷ b'i'
    ∷ b'n' ∷ b'e' ∷ b')' ∷ []

abbrev pub domain_type : List ℕ
domain_type =
    b'E' ∷ b'I' ∷ b'P' ∷ b'7' ∷ b'1' ∷ b'2' ∷ b'D' ∷ b'o' ∷ b'm' ∷ b'a' ∷ b'i' ∷ b'n' ∷ b'(' ∷ b's'
    ∷ b't' ∷ b'r' ∷ b'i' ∷ b'n' ∷ b'g' ∷ b' ' ∷ b'n' ∷ b'a' ∷ b'm' ∷ b'e' ∷ b',' ∷ b's' ∷ b't'
    ∷ b'r' ∷ b'i' ∷ b'n' ∷ b'g' ∷ b' ' ∷ b'v' ∷ b'e' ∷ b'r' ∷ b's' ∷ b'i' ∷ b'o' ∷ b'n' ∷ b','
    ∷ b'u' ∷ b'i' ∷ b'n' ∷ b't' ∷ b'2' ∷ b'5' ∷ b'6' ∷ b' ' ∷ b'c' ∷ b'h' ∷ b'a' ∷ b'i' ∷ b'n'
    ∷ b'I' ∷ b'd' ∷ b',' ∷ b'a' ∷ b'd' ∷ b'd' ∷ b'r' ∷ b'e' ∷ b's' ∷ b's' ∷ b' ' ∷ b'v' ∷ b'e'
    ∷ b'r' ∷ b'i' ∷ b'f' ∷ b'y' ∷ b'i' ∷ b'n' ∷ b'g' ∷ b'C' ∷ b'o' ∷ b'n' ∷ b't' ∷ b'r' ∷ b'a'
    ∷ b'c' ∷ b't' ∷ b')' ∷ []

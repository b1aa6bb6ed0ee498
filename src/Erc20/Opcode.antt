-- ===== src/Erc20/Opcode.antt =====
-- runtime/src/balances_erc20.rs: the module `opcode`.
use numen.Prelude.{ℕ}

abbrev pub lt : ℕ
lt = 0x10

abbrev pub eq : ℕ
eq = 0x14

abbrev pub shl : ℕ
shl = 0x1b

abbrev pub shr : ℕ
shr = 0x1c

abbrev pub calldataload : ℕ
calldataload = 0x35

abbrev pub calldatasize : ℕ
calldatasize = 0x36

abbrev pub calldatacopy : ℕ
calldatacopy = 0x37

abbrev pub returndatasize : ℕ
returndatasize = 0x3d

abbrev pub returndatacopy : ℕ
returndatacopy = 0x3e

abbrev pub mstore : ℕ
mstore = 0x52

abbrev pub jump : ℕ
jump = 0x56

abbrev pub jumpi : ℕ
jumpi = 0x57

abbrev pub gas : ℕ
gas = 0x5a

abbrev pub jumpdest : ℕ
jumpdest = 0x5b

abbrev pub push1 : ℕ
push1 = 0x60

abbrev pub push2 : ℕ
push2 = 0x61

abbrev pub push4 : ℕ
push4 = 0x63

abbrev pub dup1 : ℕ
dup1 = 0x80

abbrev pub dup3 : ℕ
dup3 = 0x82

abbrev pub return : ℕ
return = 0xf3

abbrev pub delegatecall : ℕ
delegatecall = 0xf4

abbrev pub revert : ℕ
revert = 0xfd

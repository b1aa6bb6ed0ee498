-- ===== src/Erc20/Proxy.antt =====
-- runtime/src/balances_erc20.rs: the code of the proxy at the token's address, and its jumps.
use numen.Prelude.{ℕ, zero, suc, ◌+◌, ◌/◌, ◌%◌, ◌^◌, List, [], ◌∷◌, ◌++◌, length}
use numen.Host.Bytes.{bytes_of}
use numen.Erc20.Literals.{precompile}
use numen.Erc20.Opcode

abbrev pub byte_at : List ℕ → ℕ → ℕ
byte_at [] at = 0
byte_at (b ∷ code) zero = b
byte_at (b ∷ code) (suc at) = byte_at code at

abbrev pub set_byte : List ℕ → ℕ → ℕ → List ℕ
set_byte [] at v = []
set_byte (b ∷ code) zero v = v ∷ code
set_byte (b ∷ code) (suc at) v = b ∷ set_byte code at v

-- The code with a jump to a target still open, and where the target goes.
unfoldable pub jump : List ℕ → ℕ → List ℕ × ℕ
jump code kind = (code ++ Opcode.push2 ∷ 0 ∷ 0 ∷ kind ∷ [], length code + 1)

unfoldable pub point : List ℕ → List ℕ → ℕ → List ℕ
point code [] target = code
point code (at ∷ jumps) target =
    point (set_byte (set_byte code at (target / 256)) (at + 1) (target % 256)) jumps target

-- A jump target here, for the jumps that are open.
unfoldable pub land : List ℕ → List ℕ → List ℕ
unfolding point
land code jumps = point code jumps (length code % 2 ^ 16) ++ Opcode.jumpdest ∷ []

-- One test of a selector after the other; the jumps are those that forward the call.
unfoldable pub match_selectors : List (List ℕ) → List ℕ → List ℕ × List ℕ
unfolding jump
match_selectors [] code = (code, [])
match_selectors (selector ∷ rest) code =
    let jumped =
      jump (code ++ (Opcode.dup1 ∷ Opcode.push4 ∷ []) ++ selector ++ Opcode.eq ∷ []) Opcode.jumpi in
    let others = match_selectors rest jumped.0 in (others.0, jumped.1 ∷ others.1)

-- The code for the selectors of the calls and that of `deposit()`, which the codec gives.
unfoldable pub proxy_code : List (List ℕ) → List ℕ → List ℕ
unfolding jump land match_selectors
proxy_code selectors deposit_selector =
    let to_deposit = jump (Opcode.push1 ∷ 4 ∷ Opcode.calldatasize ∷ Opcode.lt ∷ []) Opcode.jumpi in
    let to_forward = match_selectors selectors (
      to_deposit.0
      ++ Opcode.push1 ∷ 0 ∷ Opcode.calldataload ∷ Opcode.push1 ∷ 0xe0 ∷ Opcode.shr ∷ []) in
    let to_call =
      jump
        (land to_forward.0 (to_deposit.1 ∷ [])
          ++ (Opcode.push4 ∷ [])
          ++ deposit_selector
          ++ Opcode.push1 ∷ 0xe0 ∷ Opcode.shl ∷ Opcode.push1 ∷ 0 ∷ Opcode.mstore ∷ Opcode.push1 ∷ 4
            ∷ [])
        Opcode.jump in
    let forwarded =
      land to_call.0 to_forward.1
      ++ Opcode.calldatasize ∷ Opcode.push1 ∷ 0 ∷ Opcode.push1 ∷ 0 ∷ Opcode.calldatacopy
        ∷ Opcode.calldatasize ∷ [] in
    let to_return =
      jump
        (land forwarded (to_call.1 ∷ [])
          ++ (Opcode.push1 ∷ 0 ∷ Opcode.push1 ∷ 0 ∷ Opcode.dup3 ∷ Opcode.push1 ∷ 0 ∷ Opcode.push4
              ∷ [])
          ++ bytes_of 4 precompile
          ++ Opcode.gas ∷ Opcode.delegatecall ∷ Opcode.returndatasize ∷ Opcode.push1 ∷ 0
            ∷ Opcode.push1 ∷ 0 ∷ Opcode.returndatacopy ∷ [])
        Opcode.jumpi in
    land (to_return.0 ++ Opcode.returndatasize ∷ Opcode.push1 ∷ 0 ∷ Opcode.revert ∷ [])
      (to_return.1 ∷ [])
    ++ Opcode.returndatasize ∷ Opcode.push1 ∷ 0 ∷ Opcode.return ∷ []

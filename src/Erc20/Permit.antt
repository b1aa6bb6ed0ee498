-- ===== src/Erc20/Permit.antt =====
-- runtime/src/balances_erc20.rs: permits, the domain that they are signed over and their signer.
use numen.Prelude.{
  ℕ, ◌-◌, ◌+◌, ◌^◌, min, Bool, false, ◌||◌, Option, none, some, List, [], ◌∷◌, ◌++◌, ltb, ◌==◌,
  if◌then◌else◌, length,
}
use numen.Host.Bytes.{bytes_of}
use numen.Host.Ops.{Host}
use numen.Erc20.Interface.{
  Ext, State, PermitCall, approval_event, Outcome, done, error, ◌>>=◌, reverted, permit_expired,
  invalid_permit, ecdsa_recovery_token, ecdsa_to_eth_address_token, hash_keccak256_token,
}
use numen.Erc20.Literals.{name, version, permit_type, domain_type, token_address}
use numen.Erc20.Ops.{charge, charge_token, emit, insert}

abbrev pub u256_max : ℕ
u256_max = 2 ^ 256 - 1

abbrev pub is_owner : ℕ → Option ℕ → Bool
is_owner owner none = false
is_owner owner (some who) = who == owner

-- An address in a word.
abbrev pub padded : ℕ → List ℕ
padded address = bytes_of 32 address

abbrev pub recovery_id : ℕ → Option ℕ
recovery_id v =
    if v == 27 || v == 28 then some (v - 27) else if v == 0 || v == 1 then some v else none

module _ {Ledger Meter : Type 0} (host : Host Ledger) (env : Ext Ledger Meter) where
  abbrev Run {ℓ} : Type ℓ → Type ℓ
  Run A = State Ledger Meter → Outcome (A × State Ledger Meter)

  unfoldable pub keccak : List ℕ → Run (List ℕ)
  unfolding charge_token
  keccak bytes s = do
    s ← charge_token host env (hash_keccak256_token (length bytes)) s
    done (env.keccak256 bytes, s)

  unfoldable pub domain_separator : Run (List ℕ)
  unfolding keccak
  domain_separator s = do
    type_hash ← keccak domain_type s
    name_hash ← keccak name type_hash.1
    version_hash ← keccak version name_hash.1
    keccak
        (type_hash.0
          ++ name_hash.0
          ++ version_hash.0
          ++ bytes_of 32 env.chain_id
          ++ padded token_address)
        version_hash.1

  unfoldable pub domain : Run (List ℕ)
  unfolding charge domain_separator
  domain s = do
    s ← charge host env (env.reads 1) s
    separator ← domain_separator s
    done (env.encode_bytes separator.0, separator.1)

  abbrev pub address_from : Option (List ℕ) → Run (Option ℕ)
  address_from none s = done (none, s)
  address_from (some public) s = do
    s ← charge_token host env ecdsa_to_eth_address_token s
    done (env.ecdsa_to_eth_address public, s)

  abbrev pub recovered : List ℕ → List ℕ → List ℕ → Option ℕ → Run (Option ℕ)
  recovered digest r sig none s = done (none, s)
  recovered digest r sig (some id) s = do
    s ← charge_token host env ecdsa_recovery_token s
    address_from (env.ecdsa_recover (r ++ sig ++ id ∷ []) digest) s

  unfoldable pub signer : List ℕ → ℕ → List ℕ → List ℕ → Run (Option ℕ)
  unfolding charge_token
  signer digest v r sig s = recovered digest r sig (recovery_id v) s

  -- The digest that the owner signs, with the owner's nonce.
  unfoldable pub permit_digest : PermitCall → ℕ → Run (List ℕ)
  unfolding keccak domain_separator
  permit_digest call nonce s = do
    type_hash ← keccak permit_type s
    separator ← domain_separator type_hash.1
    struct_hash ←
        keccak
          (type_hash.0
            ++ padded call.owner
            ++ padded call.spender
            ++ bytes_of 32 call.value
            ++ bytes_of 32 nonce
            ++ bytes_of 32 call.deadline)
          separator.1
    keccak (0x19 ∷ 0x01 ∷ [] ++ separator.0 ++ struct_hash.0) struct_hash.1

  unfoldable pub grant : PermitCall → ℕ → State Ledger Meter → Outcome (List ℕ × State Ledger Meter)
  unfolding emit
  grant call nonce s = do
    s ← emit host env (approval_event call.owner call.spender call.value) (record s {
      nonces = λ a. if a == call.owner then min (nonce + 1) u256_max else s.nonces a;
      allowances = insert s.allowances call.owner call.spender call.value;
    })
    done ([], s)

  unfoldable pub authorized : PermitCall → Run (List ℕ)
  unfolding permit_digest signer grant
  authorized call s = do
    let nonce = s.nonces call.owner
    digest ← permit_digest call nonce s
    signed ← signer digest.0 call.v call.r call.s digest.1
    if is_owner call.owner signed.0
        then grant call nonce signed.1
        else error (reverted invalid_permit)

  unfoldable pub permit : PermitCall → Run (List ℕ)
  unfolding charge authorized
  permit call s = do
    s ← charge host env (env.saturating_add (env.reads 2) (env.writes 2)) s
    if ltb call.deadline env.now then error (reverted permit_expired) else authorized call s

-- ===== src/Erc20/Digest.antt =====
-- runtime/src/balances_erc20.rs: what a permit is signed over, without the meter, and that the metered
-- computation arrives at it.
use numen.Prelude.{ℕ, ◌≡◌, sym, ap, ap₂, ◌∙◌, Option, none, some, List, [], ◌∷◌, ◌++◌}
use numen.Host.Bytes.{bytes_of}
use numen.Host.Ops.{Host}
use numen.Erc20.Interface.{
  Ext, State, PermitCall, done, bind_elim, done-injective, ecdsa_recovery_token,
  ecdsa_to_eth_address_token,
}
use numen.Erc20.Literals.{name, version, permit_type, domain_type, token_address}
use numen.Erc20.Ops.{charge_token}
use numen.Erc20.Permit.{
  keccak, domain_separator, permit_digest, signer, recovery_id, recovered, address_from, padded,
}
use numen.Erc20.Steps.{stored, stored-keccak, stored-charge_token}

module _ {Ledger Meter : Type 0} (env : Ext Ledger Meter) where
  -- The EIP-712 domain.
  abbrev pub separator : List ℕ
  separator = env.keccak256 (
      env.keccak256 domain_type
      ++ env.keccak256 name
      ++ env.keccak256 version
      ++ bytes_of 32 env.chain_id
      ++ padded token_address)

  -- The EIP-712 digest of a permit.
  abbrev pub digest : PermitCall → ℕ → List ℕ
  digest call nonce = env.keccak256 (
      0x19 ∷ 0x01 ∷ []
      ++ separator
      ++ env.keccak256 (
          env.keccak256 permit_type
          ++ padded call.owner
          ++ padded call.spender
          ++ bytes_of 32 call.value
          ++ bytes_of 32 nonce
          ++ bytes_of 32 call.deadline))

  -- The address that a signature recovers to.
  abbrev pub address_of : Option (List ℕ) → Option ℕ
  address_of none = none
  address_of (some public) = env.ecdsa_to_eth_address public

  abbrev pub signed_by : List ℕ → Option ℕ → List ℕ → List ℕ → Option ℕ
  signed_by hash none r sig = none
  signed_by hash (some id) r sig = address_of (env.ecdsa_recover (r ++ sig ++ id ∷ []) hash)

  module _ (host : Host Ledger) where
    pub stored-domain_separator :
        (s t : State Ledger Meter) (hash : List ℕ)
        → domain_separator host env s ≡ done (hash, t)
        → (hash ≡ separator) × (stored t ≡ stored s)
    unfolding domain_separator
    stored-domain_separator s t hash h = bind_elim (keccak host env domain_type s) _ h λ a e1 h1.
        bind_elim (keccak host env name a.1) _ h1 λ b e2 h2.
          bind_elim (keccak host env version b.1) _ h2 λ c e3 h3.
            let (hash1, same1) = stored-keccak host env domain_type a.0 s a.1 e1 in
            let (hash2, same2) = stored-keccak host env name b.0 a.1 b.1 e2 in
            let (hash3, same3) = stored-keccak host env version c.0 b.1 c.1 e3 in
            let (hash4, same4) = stored-keccak host env _ hash c.1 t h3 in
            (rw (hash1, hash2, hash3) at hash4, same4 ∙ same3 ∙ same2 ∙ same1)

    pub stored-permit_digest :
        (call : PermitCall) (nonce : ℕ) (s t : State Ledger Meter) (hash : List ℕ)
        → permit_digest host env call nonce s ≡ done (hash, t)
        → (hash ≡ digest call nonce) × (stored t ≡ stored s)
    unfolding permit_digest
    stored-permit_digest call nonce s t hash h =
        bind_elim (keccak host env permit_type s) _ h λ a e1 h1.
          bind_elim (domain_separator host env a.1) _ h1 λ b e2 h2.
            bind_elim (keccak host env _ b.1) _ h2 λ c e3 h3.
              let (hash1, same1) = stored-keccak host env permit_type a.0 s a.1 e1 in
              let (hash2, same2) = stored-domain_separator a.1 b.1 b.0 e2 in
              let (hash3, same3) = stored-keccak host env _ c.0 b.1 c.1 e3 in
              let (hash4, same4) = stored-keccak host env _ hash c.1 t h3 in
              (
                hash4
                    ∙ ap₂ (λ x y. env.keccak256 (0x19 ∷ 0x01 ∷ [] ++ x ++ y)) hash2
                        (hash3
                          ∙ ap
                              (λ x. env.keccak256 (
                                x
                                ++ padded call.owner
                                ++ padded call.spender
                                ++ bytes_of 32 call.value
                                ++ bytes_of 32 nonce
                                ++ bytes_of 32 call.deadline))
                              hash1),
                same4 ∙ same3 ∙ same2 ∙ same1,
              )

    pub stored-signer :
        (hash : List ℕ) (v : ℕ) (r sig : List ℕ) (s t : State Ledger Meter) (who : Option ℕ)
        → signer host env hash v r sig s ≡ done (who, t)
        → (who ≡ signed_by hash (recovery_id v) r sig) × (stored t ≡ stored s)
    unfolding signer
    stored-signer hash v r sig s t who h = from_id (recovery_id v) h
      where
        from_public :
            (public : Option (List ℕ)) (u : State Ledger Meter)
            → address_from host env public u ≡ done (who, t)
            → (who ≡ address_of public) × (stored t ≡ stored u)
        from_public none u h =
            let same = done-injective h in
            (ap (λ q. q.0) (sym same), ap (λ q. stored q.1) (sym same))
        from_public (some public) u h =
            bind_elim (charge_token host env ecdsa_to_eth_address_token u) _ h λ u' e p.
              let same = done-injective p in
              (
                ap (λ q. q.0) (sym same),
                ap (λ q. stored q.1) (sym same)
                    ∙ stored-charge_token host env ecdsa_to_eth_address_token u u' e,
              )

        from_id :
            (id : Option ℕ)
            → recovered host env hash r sig id s ≡ done (who, t)
            → (who ≡ signed_by hash id r sig) × (stored t ≡ stored s)
        from_id none h =
            let same = done-injective h in
            (ap (λ q. q.0) (sym same), ap (λ q. stored q.1) (sym same))
        from_id (some id) h = bind_elim (charge_token host env ecdsa_recovery_token s) _ h λ u e p.
            let (recovered_to, same) =
              from_public (env.ecdsa_recover (r ++ sig ++ id ∷ []) hash) u p in
            (recovered_to, same ∙ stored-charge_token host env ecdsa_recovery_token s u e)

-- ===== src/Frontier/Blocks.antt =====
-- runtime/src/migrations/frontier.rs: which block hashes carry over.
use numen.Prelude.{
  ℕ, zero, suc, ◌+◌, ◌-◌, ◌≡◌, refl, ap, ap₂, ◌∙◌, min, ◌&&◌, Option, none, some, arith, leb, ltb,
  ◌==◌, if◌then◌else◌,
}
use numen.Host.Ops.{Host}
use numen.Claims.Defs.{Config}
use numen.Frontier.State.{State, Revive, Tally, read}
use numen.Frontier.Ops.{find_hash, range, recent_blocks, copy_hash, copy_hashes, copy_block_hashes}

abbrev pub or_else : Option ℕ → Option ℕ → Option ℕ
or_else none other = other
or_else (some hash) other = some hash

module _ {Ledger Info : Type 0} (host : Host Ledger) (revive : Revive Ledger Info)
    (cfg : Config Ledger) where
  copy_hash-effect :
      (number n : ℕ) (s : State Ledger) (tally : Tally) (found : Option ℕ)
      → let t = (copy_hash host revive cfg number s tally found).0 in
        (find_hash t.revive_hashes n ≡ (
          if number == n
          then or_else found (find_hash s.revive_hashes n)
          else find_hash s.revive_hashes n))
        × (t.block_hashes ≡ s.block_hashes)
  copy_hash-effect number n s tally none = (ground arith, refl)
  copy_hash-effect number n s tally (some hash) = (refl, refl)

  merged :
      (first n count : ℕ) (found now old : Option ℕ)
      → (first ≡ n → found ≡ now)
      → (let copied = if first == n then or_else found old else old in
          if leb (first + 1) n && ltb n (first + 1 + count) then or_else now copied else copied)
        ≡ (if leb first n && ltb n (first + suc count) then or_else now old else old)
  merged first n count found now old e = ground (arith, e)

  copy_hashes-effect :
      (count first n : ℕ) (s : State Ledger) (tally : Tally)
      → find_hash (copy_hashes host revive cfg (range first count) s tally).0.revive_hashes n ≡ (
          if leb first n && ltb n (first + count)
          then or_else (find_hash s.block_hashes n) (find_hash s.revive_hashes n)
          else find_hash s.revive_hashes n)
  unfolding copy_hashes
  copy_hashes-effect zero first n s tally = ground arith
  copy_hashes-effect (suc count) first n s tally =
      let found = find_hash s.block_hashes first in
      let copied = copy_hash host revive cfg first s (read tally 1) found in
      let (hash, kept) = copy_hash-effect first n s (read tally 1) found in
      let rest = copy_hashes-effect count (first + 1) n copied.0 copied.1 in
      rest
      ∙ ap₂ (λ b r. if leb (first + 1) n && ltb n (first + 1 + count) then or_else b r else r)
          (ap (λ hashes. find_hash hashes n) kept) hash
      ∙ merged first n count found (find_hash s.block_hashes n) (find_hash s.revive_hashes n)
          (λ e. ap (find_hash s.block_hashes) e)

  window :
      (n now : ℕ)
      → (leb (now - 256) n && ltb n (now - 256 + (min now 256 + 1)))
        ≡ (leb n now && leb now (n + 256))
  window n now = ground arith

  -- For each of the last 257 block numbers pallet-revive answers with the hash that Frontier has, and with
  -- its own where Frontier has none; for every other number its answer stays.
  pub copy_block_hashes-effect :
      (n : ℕ) (s : State Ledger) (tally : Tally)
      → let now = revive.block_number s.claims.ledger in
        find_hash (copy_block_hashes host revive cfg s tally).0.revive_hashes n ≡ (
          if leb n now && leb now (n + 256)
          then or_else (find_hash s.block_hashes n) (find_hash s.revive_hashes n)
          else find_hash s.revive_hashes n)
  unfolding copy_block_hashes recent_blocks
  copy_block_hashes-effect n s tally =
      let now = revive.block_number s.claims.ledger in
      let found = find_hash s.block_hashes n in
      let kept = find_hash s.revive_hashes n in
      copy_hashes-effect (min now 256 + 1) (now - 256) n s tally
      ∙ ap (λ b. if b then or_else found kept else kept) (window n now)

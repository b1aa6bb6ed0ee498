-- ===== src/Frame.antt =====
-- What the pallets share of FRAME: the origin of a call, which is a signed account, root, or none.
use numen.Prelude.{ℕ}

pub data Origin : Type 0 where
  signed : ℕ → Origin
  root unsigned : Origin

-- ===== src/Rpc/Objects.antt =====
-- node/src/object_rpc.rs: the model of a block's miner, regrown at the parent. The text of a model is its
-- lines; a vertex is opaque, since its coordinates are in floating point.
use numen.Prelude.{
  ℕ, ◌+◌, ◌%◌, Option, none, some, List, [], ◌∷◌, ◌++◌, ◌==◌, if◌then◌else◌, u32_mod,
}
use numen.Chain.Defs.{DigestItem, sealed}
use numen.Chain.Header.{pop}
use numen.PoScan.Defs.{Seal}

pub data RpcError : Type 0 where
  unknown_block no_seal rebuild_failed : RpcError

pub data RpcResult {ℓ} (A : Type ℓ) : Type ℓ where
  ok : A → RpcResult A
  failed : RpcError → RpcResult A

infixl 5 ◌>>=◌
abbrev pub ◌>>=◌ {ℓ κ} : {A : Type ℓ} {B : Type κ} → RpcResult A → (A → RpcResult B) → RpcResult B
failed e >>= next = failed e
ok a >>= next = next a

pub record Header : Type 0 where
  pub parent_hash : ℕ
  pub digest : List DigestItem

pub record WireMesh (Vertex : Type 0) : Type 0 where
  pub vertices : List Vertex
  pub faces : List (ℕ × ℕ × ℕ)

-- What the client answers for a header.
pub data Looked : Type 0 where
  found : Header → Looked
  missing unavailable : Looked

-- The client, the runtime's generator and the codecs; `engine` is `POW_ENGINE_ID`.
pub record Client (Vertex : Type 0) : Type 0 where
  pub engine : ℕ
  pub header : ℕ → Looked
  pub hash : Header → ℕ
  pub decode_seal : ℕ → Option Seal
  pub generate_mesh : ℕ → ℕ → ℕ → Option (List ℕ)
  pub decode_mesh : List ℕ → Option (WireMesh Vertex)

pub data Line (Vertex : Type 0) : Type 0 where
  v : Vertex → Line Vertex
  f : ℕ → ℕ → ℕ → Line Vertex

abbrev vertex_lines : {Vertex : Type 0} → List Vertex → List (Line Vertex)
vertex_lines [] = []
vertex_lines (vertex ∷ rest) = v vertex ∷ vertex_lines rest

abbrev face_lines : {Vertex : Type 0} → List (ℕ × ℕ × ℕ) → List (Line Vertex)
face_lines [] = []
face_lines ((a, b, c) ∷ rest) =
    f ((a + 1) % u32_mod) ((b + 1) % u32_mod) ((c + 1) % u32_mod) ∷ face_lines rest

unfoldable pub write_obj : {Vertex : Type 0} → WireMesh Vertex → List (Line Vertex)
write_obj mesh = vertex_lines mesh.vertices ++ face_lines mesh.faces

abbrev ok_or {ℓ} : {A : Type ℓ} → Option A → RpcError → RpcResult A
ok_or none e = failed e
ok_or (some a) e = ok a

module _ {Vertex : Type 0} (client : Client Vertex) where
  abbrev header_of : Looked → RpcResult Header
  header_of (found header) = ok header
  header_of missing = failed unknown_block
  header_of unavailable = failed rebuild_failed

  -- The seal, and the header without it.
  abbrev stripped : Header → Option (List DigestItem × DigestItem) → RpcResult (ℕ × Header)
  stripped header (some (rest, sealed id bytes)) =
      if id == client.engine then ok (bytes, record header { digest = rest }) else failed no_seal
  stripped header _ = failed no_seal

  unfoldable pub get_object : ℕ → RpcResult (List (Line Vertex))
  unfolding write_obj
  get_object block_hash = do
    header ← header_of (client.header block_hash)
    taken ← stripped header (pop header.digest)
    seal ← ok_or (client.decode_seal taken.0) rebuild_failed
    encoded ←
        ok_or (client.generate_mesh taken.1.parent_hash (client.hash taken.1) seal.nonce)
          rebuild_failed
    mesh ← ok_or (client.decode_mesh encoded) rebuild_failed
    ok (write_obj mesh)

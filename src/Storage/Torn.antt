-- ===== src/Storage/Torn.antt =====
-- What a failed write of a blob leads to, in `put_bytes` of crates/agent/src/storage/mod.rs.
use peer_deploy.Prelude.{String, ◌≡◌, Option, some}
use peer_deploy.Prelude.Dict
use peer_deploy.Prelude.Dict.{is_some}
use peer_deploy.Prelude.Outcome.{Result, ok, err}
use peer_deploy.Storage.Store.{Bytes, ContentStore}

module _ (sha256_hex : Bytes → String) (bytes part : Bytes) where
  abbrev digest : String
  digest = sha256_hex bytes

  -- The call fails and leaves a part of the bytes under the digest.
  pub record IsTorn (r : Option (Result String String × ContentStore)) : Type 0 where
    pub store : ContentStore
    pub failed : r ≡ some (err "write failed", store)
    pub left : Dict.get store.blobs digest ≡ some part

  -- The call succeeds, with these bytes under the digest.
  pub record IsAccepted (r : Option (Result String String × ContentStore)) : Type 0 where
    pub store : ContentStore
    pub done : r ≡ some (ok digest, store)
    pub held : Dict.get store.blobs digest ≡ some part

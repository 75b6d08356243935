-- ===== src/Cookie.antt =====
-- The cookie of a migration: `auth_cookie` of hazmat/ceph.py, up to the hash. A lock is the text of its
-- client and that of its number, as `lock_status` gives them.
pub mod Faithful
use fc_qemu.Base.{ℕ, Option, none, some, List, [], ◌∷◌, ◌++◌}
use fc_qemu.Util.Text.{Text}

pub record Lock : Type 0 where
  pub client : Text
  pub id : Text

-- A volume under its name, with its lock.
pub record Locked : Type 0 where
  pub name : Text
  pub lock : Option Lock

-- `status`, for one volume.
abbrev pub status : Locked → List Text
status v = elim v.lock [ none ↦ v.name ∷ [] | some l ↦ v.name ∷ l.client ∷ l.id ∷ [] ]

-- `"\0".join(fields) + "\0"`, for fields of which there is one at least.
unfoldable pub terminated : List Text → Text
terminated [] = []
terminated (f ∷ fs) = f ++ 0 ∷ terminated fs

-- What is hashed for the volumes, one after another.
unfoldable pub hashed : List Locked → Text
hashed [] = []
hashed (v ∷ vs) = terminated (status v) ++ hashed vs

-- `auth_cookie`, of the volumes root, swap and tmp, for a hash.
unfoldable pub auth_cookie : (Text → Text) → Locked → Locked → Locked → Text
auth_cookie sha1 root swap tmp = sha1 (hashed (root ∷ swap ∷ tmp ∷ []))

-- ===== src/Fs.antt =====
-- The file system: src/fs/.
pub mod Calls
pub mod HypnoticFs
pub mod Path
use hypnoticos.Base.{ℕ, Option, List}

-- FsIndex_t; the name is `none` where it is read from behind its array, from bytes not known here.
pub record FsIndex : Type 0 where
  pub type : ℕ
  pub size : ℕ
  pub name : Option (List ℕ)

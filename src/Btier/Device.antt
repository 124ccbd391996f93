-- ===== src/Btier/Device.antt =====
-- The part of blk/block_device.h that the tiered engine calls. The device itself is the operating
-- system's, so it is an interface: a state with a read, a write and a flush.
pub mod Disk
use clab.Prelude.{ℕ, List}

-- The `int` that a call returns: zero or more, or minus an errno.
pub data Status : Type 0 where
  ok : Status
  error : ℕ → Status

abbrev pub enoent : ℕ
enoent = 2

abbrev pub eio : ℕ
eio = 5

abbrev pub einval : ℕ
einval = 22

abbrev pub enospc : ℕ
enospc = 28

-- `read` gives the bytes that were read, or the errno.
pub data Read : Type 0 where
  got : List ℕ → Read
  failed : ℕ → Read

pub record BlockDevice (D : Type 0) : Type 0 where
  pub read : D → ℕ → ℕ → Read
  pub write : D → ℕ → List ℕ → D × Status
  pub flush : D → D × Status

-- ===== src/Loader/Reads.antt =====
-- The handlers of src/NodesetLoader.c leave a nodeset that is being read.
pub mod Starts
pub mod Stops
pub mod Files
pub mod Sorted
use open62541_nodeset_loader.Base.{Exec, Ensures}
use open62541_nodeset_loader.Ua.{Ua}
use open62541_nodeset_loader.Loader.{FileContext, Ctx}
use open62541_nodeset_loader.Build.Keeps.{IsRead}

module _ (ua : Ua) (fc : FileContext ua) where
  abbrev pub Reads : Ctx ua fc → Type 0
  Reads pctx = IsRead ua pctx.nodeset

  -- If a handler returns, the nodeset is still being read.
  abbrev pub Reading : Exec (Ctx ua fc) → Type 0
  Reading e = Ensures Reads e

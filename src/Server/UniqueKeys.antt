-- ===== src/Server/UniqueKeys.antt =====
-- The requests of a client (src/server/CommandDispatcher.cpp) on a storage engine in which no key
-- stands twice.
use mathlib.Core.List.{map}
use distributed_in_memory_ke.Protocol.Value.{RespValue}
use distributed_in_memory_ke.Storage.Entry.{Platform}
use distributed_in_memory_ke.Storage.UniqueOperations.{
  HasUniqueKeys, UniqueShards, UniqueShards-IsClosed,
}
use distributed_in_memory_ke.Storage.KeptOperations.{
  set-Kept, get-Kept, exists-Kept, del-Kept, incr-Kept, decr-Kept, expire_to-Kept, pttl-Kept,
  persist-Kept,
}
use distributed_in_memory_ke.Server.State.{World, Call}
use distributed_in_memory_ke.Server.Dispatch.{dispatch}
use distributed_in_memory_ke.Server.EngineKept.{Keeps, dispatch-Keeps}

module _ (platform : Platform) where
  operations-Keeps : Keeps platform HasUniqueKeys HasUniqueKeys
  operations-Keeps =
      let closed = UniqueShards-IsClosed platform in
      record {
        same = λ e u. u;
        limit = λ bytes e u. u;
        set = λ sampler now k s e u.
            set-Kept platform UniqueShards closed sampler now (platform.make k) (platform.make s) e
              u;
        get = λ now k e u. get-Kept platform UniqueShards closed now (platform.make k) e u;
        exists =
            λ now ks e u. exists-Kept platform UniqueShards closed now (map platform.make ks) e u;
        del = λ ks e u. del-Kept platform UniqueShards closed (map platform.make ks) e u;
        incr = λ sampler now k e u.
            incr-Kept platform UniqueShards closed sampler now (platform.make k) e u;
        decr = λ sampler now k e u.
            decr-Kept platform UniqueShards closed sampler now (platform.make k) e u;
        expire_to = λ now k deadline e u.
            expire_to-Kept platform UniqueShards closed now (platform.make k) e u deadline;
        pttl = λ now k e u. pttl-Kept platform UniqueShards closed now (platform.make k) e u;
        persist = λ now k e u. persist-Kept platform UniqueShards closed now (platform.make k) e u;
      }

-- Whatever the request, a dispatch on an engine in which no key stands twice leaves an engine in
-- which no key stands twice.
pub dispatch-HasUniqueKeys :
    (platform : Platform) (call : Call) (request : RespValue) (w : World)
    → HasUniqueKeys w.storage
    → HasUniqueKeys (dispatch platform call request w).0.storage
dispatch-HasUniqueKeys platform call request w u =
    dispatch-Keeps platform HasUniqueKeys HasUniqueKeys (operations-Keeps platform) call request w u

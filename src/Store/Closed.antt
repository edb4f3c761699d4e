-- ===== src/Store/Closed.antt =====
-- A closed store (graphengine/store/memory.go).
use harness_go.Base.{ℕ, String, ◌≡◌, refl, some, List, Dict}
use harness_go.Value.{Value}
use harness_go.Errors.{err}
use harness_go.Clock.{Duration}
use harness_go.Store.{
  InMemoryStore, Index, PutOperation, store_closed, get, get_item, search, list_keys, put, put_item,
  delete, batch_put, set_ttl, close,
}

-- After Close every read fails, and every write but Clear fails and leaves the store as it is.
pub closed_refuses :
    (lower : String → String) (now limit : ℕ) (before : InMemoryStore) (namespace : List String)
    (key query : String) (value : Dict Value) (ops : List PutOperation) (index : Index)
    (d : Duration)
    → (get now (close before) namespace key ≡ err store_closed)
      × (get_item now (close before) namespace key ≡ err store_closed)
      × (search lower now (close before) namespace query limit ≡ err store_closed)
      × (list_keys now (close before) namespace limit ≡ err store_closed)
      × (put (close before) namespace key value ≡ (close before, some store_closed))
      × (put_item now (close before) namespace key value index (some d)
          ≡ (close before, some store_closed))
      × (delete (close before) namespace key ≡ (close before, some store_closed))
      × (batch_put (close before) ops ≡ (close before, some store_closed))
      × (set_ttl now (close before) namespace key d ≡ (close before, some store_closed))
unfolding get get_item search list_keys put put_item delete batch_put set_ttl close
closed_refuses lower now limit before namespace key query value ops index d =
    (refl, refl, refl, refl, refl, refl, refl, refl, refl)

-- ===== src/Store/Replay.antt =====
-- The store against a plain function (graphengine/store/memory.go): any run of writes reads as the
-- same writes replayed on a function from names.
use harness_go.Base.{
  ℕ, String, ◌≡◌, refl, sym, subst, ap, ◌∙◌, Bool, true, false, ◌&&◌, Option, none, some, List, [],
  ◌∷◌, arith, Dict, lookup, insert, remove, keys, Distinct, Distinct-insert, insert_all,
  insert_all-nil, lookup-insert, lookup-remove, get_or, ◌==◌, eq_iff, if◌then◌else◌, Bool-cases,
  Option-cases, inl, inr,
}
use harness_go.Value.{Value}
use harness_go.Errors.{ok}
use harness_go.Store.{
  InMemoryStore, PutOperation, when_open, new_in_memory_store, ns_key, copy_value, copied, get,
  write_value, write_values, put, delete_value, delete, batch_put, clear,
}
use harness_go.Store.Sweep.{within, read-within, get-read}

pub data Op : Type 0 where
  put_op : List String → String → Dict Value → Op
  delete_op : List String → String → Op
  batch_op : List PutOperation → Op
  clear_op : Op

-- a run of writes
unfoldable pub run : List Op → InMemoryStore → InMemoryStore
unfolding put delete batch_put clear
run [] s = s
run (put_op n k v ∷ ops) s = run ops (put s n k v).0
run (delete_op n k ∷ ops) s = run ops (delete s n k).0
run (batch_op w ∷ ops) s = run ops (batch_put s w).0
run (clear_op ∷ ops) s = run ops (clear s)

-- a function from the joined name of a namespace and a key
abbrev pub Contents : Type 0
Contents = String → String → Option (Dict Value)

abbrev pub update : Contents → String → String → Option (Dict Value) → Contents
update f ns key o other_ns other = if ns == other_ns && key == other then o else f other_ns other

abbrev pub update_all : List PutOperation → Contents → Contents
update_all [] f = f
update_all (op ∷ ops) f = update_all ops (update f (ns_key op.namespace) op.key (some op.value))

-- the same writes, on a function
abbrev pub replay : List Op → Contents → Contents
replay [] f = f
replay (put_op n k v ∷ ops) f = replay ops (update f (ns_key n) k (some v))
replay (delete_op n k ∷ ops) f = replay ops (update f (ns_key n) k none)
replay (batch_op w ∷ ops) f = replay ops (update_all w f)
replay (clear_op ∷ ops) f = replay ops (λ ns key. none)

-- The store holds copies of what the function gives.
Holds : Dict (Dict (Dict Value)) → Contents → Type 0
Holds m f = (ns key : String) → within (lookup ns m) key ≡ copied (f ns key)

lookup-get_or :
    (key : String) (o : Option (Dict (Dict Value))) → lookup key (get_or o []) ≡ within o key
unfolding lookup
lookup-get_or key none = refl
lookup-get_or key (some m) = refl

copied-if :
    (b : Bool) (v : Dict Value) (o : Option (Dict Value))
    → (if b then some (copy_value v) else copied o) ≡ copied (if b then some v else o)
copied-if true v o = refl
copied-if false v o = refl

Holds-write_value :
    (ns key : String) (v : Dict Value) (m : Dict (Dict (Dict Value))) (f : Contents)
    → Holds m f
    → Holds (write_value ns key v m) (update f ns key (some v))
unfolding Holds write_value
Holds-write_value ns key v m f h other_ns other = elim (Bool-cases (ns == other_ns)) [
  | inr differs ↦
      rw
        (
          lookup-insert ns other_ns (insert key (copy_value v) (get_or (lookup ns m) [])) m,
          differs,
          h other_ns other,
        )
        refl
  | inl same ↦
      let here : within (lookup ns m) other ≡ copied (f other_ns other) =
        ap (λ n. within (lookup n m) other) ((eq_iff ns other_ns).0 same) ∙ h other_ns other in
      rw
        (
          lookup-insert ns other_ns (insert key (copy_value v) (get_or (lookup ns m) [])) m,
          same,
          lookup-insert key other (copy_value v) (get_or (lookup ns m) []),
          lookup-get_or other (lookup ns m),
          here,
        )
        (copied-if (key == other) v (f other_ns other))
]

Holds-write_values :
    (ops : List PutOperation) (m : Dict (Dict (Dict Value))) (f : Contents)
    → Holds m f
    → Holds (write_values ops m) (update_all ops f)
unfolding write_values
Holds-write_values [] m f h = h
Holds-write_values (op ∷ ops) m f h =
    Holds-write_values ops (write_value (ns_key op.namespace) op.key op.value m)
      (update f (ns_key op.namespace) op.key (some op.value))
      (Holds-write_value (ns_key op.namespace) op.key op.value m f h)

-- an open store without times to live, and the function it stands for
pub record Shows (s : InMemoryStore) (f : Contents) : Type 0 where
  is_open : s.closed ≡ false
  lasting : s.ttl ≡ []
  holds : Holds s.data_ f

Distinct-insert_all : (new m : Dict Value) → Distinct (keys m) → Distinct (keys (insert_all new m))
unfolding insert_all
Distinct-insert_all [] m d = d
Distinct-insert_all ((k, v) ∷ new) m d =
    Distinct-insert_all new (insert k v m) (Distinct-insert k v m d)

copy_value-twice : (v : Dict Value) → copy_value (copy_value v) ≡ copy_value v
unfolding copy_value keys
copy_value-twice v = insert_all-nil (insert_all v []) (Distinct-insert_all v [] tt)

copied_twice : (o : Option (Dict Value)) → copied (copied o) ≡ copied o
copied_twice none = refl
copied_twice (some v) = ap some (copy_value-twice v)

get-Shows :
    (t : ℕ) (s : InMemoryStore) (f : Contents) (namespace : List String) (key : String)
    → Shows s f
    → get t s namespace key ≡ ok (copied (f (ns_key namespace) key))
unfolding lookup Holds
get-Shows t s f namespace key h =
    get-read t s namespace key h.is_open
    ∙ ap ok (
        rw (read-within t s (ns_key namespace) key, h.lasting, h.holds (ns_key namespace) key)
          (copied_twice (f (ns_key namespace) key)))

lookup-delete_value :
    (s : InMemoryStore) (ns key other_ns other : String)
    → within (lookup other_ns (delete_value s ns key).data_) other
      ≡ (if ns == other_ns && key == other then none else within (lookup other_ns s.data_) other)
unfolding delete_value
lookup-delete_value s ns key other_ns other = elim (Option-cases (lookup ns s.data_)) [
  | inl absent ↦ ground (arith, eq_iff ns other_ns)
  | inr (d, found) ↦
      rw (found, lookup-insert ns other_ns (remove key d) s.data_)
        (ground (arith, eq_iff ns other_ns, lookup-remove key other d))
]

delete_value-open :
    (s : InMemoryStore) (ns key : String)
    → s.ttl ≡ []
    → ((delete_value s ns key).ttl ≡ []) × ((delete_value s ns key).closed ≡ s.closed)
unfolding delete_value remove
delete_value-open s ns key h = elim (Option-cases (lookup ns s.data_)) [
  | inl absent ↦ rw absent (h, refl)
  | inr (d, found) ↦ rw (found, h) (refl, refl)
]

delete-Shows :
    (s : InMemoryStore) (f : Contents) (ns key : String)
    → Shows s f
    → Shows (delete_value s ns key) (update f ns key none)
unfolding Holds
delete-Shows s f ns key h =
    let kept = delete_value-open s ns key h.lasting in
    record {
      is_open = kept.1 ∙ h.is_open;
      lasting = kept.0;
      holds = λ other_ns other.
          lookup-delete_value s ns key other_ns other
          ∙ without (ns == other_ns && key == other) (f other_ns other)
              (within (lookup other_ns s.data_) other) (h.holds other_ns other);
    }
  where
    without :
        (b : Bool) (o x : Option (Dict Value))
        → x ≡ copied o
        → (if b then none else x) ≡ copied (if b then none else o)
    without true o x e = refl
    without false o x e = e

opened : (s done : InMemoryStore) → s.closed ≡ false → (when_open s done).0 ≡ done
opened s done h = ground arith

-- each kind of write, as one step of the run
put_open :
    (s : InMemoryStore) (n : List String) (k : String) (v : Dict Value)
    → s.closed ≡ false
    → (put s n k v).0 ≡ record s { data_ = write_value (ns_key n) k v s.data_ }
unfolding put
put_open s n k v h = opened s (record s { data_ = write_value (ns_key n) k v s.data_ }) h

delete_open :
    (s : InMemoryStore) (n : List String) (k : String)
    → s.closed ≡ false
    → (delete s n k).0 ≡ delete_value s (ns_key n) k
unfolding delete
delete_open s n k h = opened s (delete_value s (ns_key n) k) h

batch_open :
    (s : InMemoryStore) (w : List PutOperation)
    → s.closed ≡ false
    → (batch_put s w).0 ≡ record s { data_ = write_values w s.data_ }
unfolding batch_put
batch_open s w h = opened s (record s { data_ = write_values w s.data_ }) h

with_data :
    (s : InMemoryStore) (m : Dict (Dict (Dict Value))) (f g : Contents)
    → Shows s f
    → Holds m g
    → Shows (record s { data_ = m }) g
with_data s m f g h k = record { is_open = h.is_open; lasting = h.lasting; holds = k }

clear-Shows : (s : InMemoryStore) → s.closed ≡ false → Shows (clear s) (λ ns key. none)
unfolding clear Holds lookup
clear-Shows s h = record { is_open = h; lasting = refl; holds = λ ns key. refl }

new-Shows : Shows new_in_memory_store (λ ns key. none)
unfolding new_in_memory_store Holds lookup
new-Shows = record { is_open = refl; lasting = refl; holds = λ ns key. refl }

run-Shows :
    (ops : List Op) (s : InMemoryStore) (f : Contents)
    → Shows s f
    → Shows (run ops s) (replay ops f)
unfolding run
run-Shows [] s f h = h
run-Shows (put_op n k v ∷ ops) s f h =
    run-Shows ops (put s n k v).0 (update f (ns_key n) k (some v)) (
      subst (λ x. Shows x (update f (ns_key n) k (some v))) (sym (put_open s n k v h.is_open))
        (with_data s (write_value (ns_key n) k v s.data_) f (update f (ns_key n) k (some v)) h
          (Holds-write_value (ns_key n) k v s.data_ f h.holds)))
run-Shows (delete_op n k ∷ ops) s f h =
    run-Shows ops (delete s n k).0 (update f (ns_key n) k none) (
      subst (λ x. Shows x (update f (ns_key n) k none)) (sym (delete_open s n k h.is_open))
        (delete-Shows s f (ns_key n) k h))
run-Shows (batch_op w ∷ ops) s f h = run-Shows ops (batch_put s w).0 (update_all w f) (
    subst (λ x. Shows x (update_all w f)) (sym (batch_open s w h.is_open))
      (with_data s (write_values w s.data_) f (update_all w f) h
        (Holds-write_values w s.data_ f h.holds)))
run-Shows (clear_op ∷ ops) s f h =
    run-Shows ops (clear s) (λ ns key. none) (clear-Shows s h.is_open)

-- After any run of Put, Delete, BatchPut and Clear on a new store, Get gives a copy of what the
-- same writes leave on a function from the joined name of a namespace and a key.
pub get-run :
    (ops : List Op) (t : ℕ) (namespace : List String) (key : String)
    → get t (run ops new_in_memory_store) namespace key
      ≡ ok (copied (replay ops (λ ns k. none) (ns_key namespace) key))
get-run ops t namespace key =
    get-Shows t (run ops new_in_memory_store) (replay ops (λ ns k. none)) namespace key
      (run-Shows ops new_in_memory_store (λ ns k. none) new-Shows)

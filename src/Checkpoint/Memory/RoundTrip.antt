-- ===== src/Checkpoint/Memory/RoundTrip.antt =====
-- What Get finds after Put (graphengine/checkpoint/memory.go).
use harness_go.Base.{
  String, ◌≡◌, refl, sym, subst, false, none, some, List, [], ◌∷◌, ◌++◌, ◌==◌, eq_iff, eq_refl,
  Dict, lookup, get_or, lookup-insert, last?-append, if◌then◌else◌, Bool-cases, inl, inr,
}
use harness_go.Value.{Value, of_fields-fields}
use harness_go.Errors.{ok}
use harness_go.Checkpoint.Copy.{deep_copy, deep_copy_map, copy_fields_twice}
use harness_go.Checkpoint.Memory.{
  Entry, MemorySaver, text_at, thread_key, checkpoint_key, entries_of, find_entry, get, put, put_in,
  new_entry,
}

find_entry-append_found :
    (id : String) (es : List Entry) (e new : Entry)
    → find_entry id es ≡ some e
    → find_entry id (es ++ new ∷ []) ≡ some e
unfolding find_entry
find_entry-append_found id [] e new h = cc
find_entry-append_found id (x ∷ xs) e new h = elim (Bool-cases (x.id == id)) [
  | inl here ↦ rw here (rw here at h)
  | inr later ↦ rw later (find_entry-append_found id xs e new (rw later at h))
]

find_entry-append_new :
    (id : String) (es : List Entry) (new : Entry)
    → find_entry id es ≡ none
    → new.id ≡ id
    → find_entry id (es ++ new ∷ []) ≡ some new
unfolding find_entry
find_entry-append_new id [] new h e = rw (e, eq_refl) refl
find_entry-append_new id (x ∷ xs) new h e = elim (Bool-cases (x.id == id)) [
  | inl here ↦ let bad : some x ≡ none = rw here at h in cc
  | inr later ↦ rw later (find_entry-append_new id xs new (rw later at h) e)
]

module _ (json_copy : Value → Value) (fresh : String) (s : MemorySaver) (config cp : Dict Value)
    (thread : String) where
  abbrev pub stored : Entry
  stored = new_entry json_copy fresh thread config cp

  entries_of-put :
      (other : String)
      → entries_of (put_in json_copy (some thread) fresh s config cp).0 other
        ≡ (if thread == other then entries_of s thread ++ stored ∷ [] else entries_of s other)
  unfolding entries_of
  entries_of-put other = elim (Bool-cases (thread == other)) [
    | inl same ↦
        rw
          (
            lookup-insert thread other (get_or (lookup thread s.versions) [] ++ stored ∷ [])
                s.versions,
            same,
          )
          refl
    | inr differs ↦
        rw
          (
            lookup-insert thread other (get_or (lookup thread s.versions) [] ++ stored ∷ [])
                s.versions,
            differs,
          )
          refl
  ]

  pub entries_of-put_self :
      entries_of (put_in json_copy (some thread) fresh s config cp).0 thread
      ≡ entries_of s thread ++ stored ∷ []
  entries_of-put_self = rw (entries_of-put thread, eq_refl thread) refl

  -- A checkpoint that is put is what Get finds next as the latest one of its thread: a copy, where
  -- a copy by JSON text is not changed by copying it again.
  pub get-put_latest :
      (asked : Dict Value)
      → text_at thread_key config ≡ some thread
      → text_at thread_key asked ≡ some thread
      → text_at checkpoint_key asked ≡ none
      → ((v : Value) → deep_copy json_copy (json_copy v) ≡ json_copy v)
      → get json_copy (put json_copy fresh s config cp).0 asked
        ≡ ok (some (deep_copy_map json_copy cp))
  unfolding get put deep_copy_map
  get-put_latest asked h t c again =
      rw
        (
          h,
          t,
          c,
          entries_of-put_self,
          last?-append (entries_of s thread) stored,
          of_fields-fields,
          copy_fields_twice json_copy again,
        )
        refl

  -- A checkpoint that is put under an identifier that its thread has not used is what Get finds
  -- under that identifier: a copy, where a copy by JSON text is not changed by copying it again.
  pub get-put_by_id :
      (asked : Dict Value) (id : String)
      → text_at thread_key config ≡ some thread
      → text_at checkpoint_key config ≡ some id
      → find_entry id (entries_of s thread) ≡ none
      → text_at thread_key asked ≡ some thread
      → text_at checkpoint_key asked ≡ some id
      → ((v : Value) → deep_copy json_copy (json_copy v) ≡ json_copy v)
      → get json_copy (put json_copy fresh s config cp).0 asked
        ≡ ok (some (deep_copy_map json_copy cp))
  unfolding get put deep_copy_map
  get-put_by_id asked id h i new t c again =
      let own : stored.id ≡ id = rw i refl in
      rw
        (
          h,
          t,
          c,
          entries_of-put_self,
          find_entry-append_new id (entries_of s thread) stored new own,
          of_fields-fields,
          copy_fields_twice json_copy again,
        )
        refl

  found-put :
      (other id : String) (e : Entry)
      → find_entry id (entries_of s other) ≡ some e
      → find_entry id (entries_of (put_in json_copy (some thread) fresh s config cp).0 other)
        ≡ some e
  found-put other id e f = elim (Bool-cases (thread == other)) [
    | inl same ↦
        rw (entries_of-put other, same)
          (find_entry-append_found id (entries_of s thread) e stored (
            subst (λ k. find_entry id (entries_of s k) ≡ some e)
              (sym ((eq_iff thread other).0 same)) f))
    | inr differs ↦ rw (entries_of-put other, differs) f
  ]

  -- What Get finds under an identifier is found there after any Put too, also after one to the same
  -- thread under the same identifier.
  pub get-put_keeps :
      (asked : Dict Value) (other id : String) (e : Entry)
      → text_at thread_key config ≡ some thread
      → text_at thread_key asked ≡ some other
      → text_at checkpoint_key asked ≡ some id
      → find_entry id (entries_of s other) ≡ some e
      → get json_copy (put json_copy fresh s config cp).0 asked ≡ get json_copy s asked
  unfolding get put
  get-put_keeps asked other id e h t c f = rw (h, t, c, found-put other id e f, f) refl

  -- A Put to one thread changes nothing of what Get finds for another.
  pub get-put_other :
      (asked : Dict Value) (other : String)
      → text_at thread_key config ≡ some thread
      → text_at thread_key asked ≡ some other
      → (thread == other) ≡ false
      → get json_copy (put json_copy fresh s config cp).0 asked ≡ get json_copy s asked
  unfolding get put
  get-put_other asked other h t differs = rw (h, t, entries_of-put other, differs) refl

-- ===== src/Checkpoint/Memory/Listing.antt =====
-- What List gives (graphengine/checkpoint/memory.go).
use harness_go.Base.{
  ℕ, zero, suc, ◌-◌, ◌≤◌, ◌<◌, String, ◌≡◌, refl, ap, sym, subst, ◌∙◌, ◌||◌, Option, none, some,
  List, [], ◌∷◌, ◌++◌, arith, Dict, length, length-append, leb, le→leb, leb→le, ltb, nat_beq,
  if◌then◌else◌, Bool-cases, inl, inr,
}
use harness_go.Value.{Value}
use harness_go.Errors.{Result, ok, err, Ensures}
use harness_go.Checkpoint.Memory.{
  Entry, MemorySaver, text_at, thread_key, entries_of, put, entry_at, list_down, list_entries,
  new_entry, list_from,
}
use harness_go.Checkpoint.Memory.RoundTrip.{entries_of-put_self, stored}

entry_at-last :
    (es : List Entry) (e : Entry) (rest : List Entry)
    → entry_at (es ++ e ∷ []) (length es) rest ≡ e ∷ rest
entry_at-last [] e rest = refl
entry_at-last (x ∷ es) e rest = entry_at-last es e rest

entry_at-front :
    (es : List Entry) (e : Entry) (i : ℕ) (rest : List Entry)
    → i < length es
    → entry_at (es ++ e ∷ []) i rest ≡ entry_at es i rest
entry_at-front [] e i rest h = absurd (omega arith)
entry_at-front (x ∷ es) e zero rest h = refl
entry_at-front (x ∷ es) e (suc i) rest h = entry_at-front es e i rest (omega arith)

list_down-front :
    (es : List Entry) (e : Entry) (low i : ℕ)
    → i ≤ length es
    → list_down (es ++ e ∷ []) low i ≡ list_down es low i
unfolding list_down
list_down-front es e low zero h = refl
list_down-front es e low (suc i) h =
    rw
      (
        list_down-front es e low i (omega arith),
        entry_at-front es e i (list_down es low i) (omega arith),
      )
      refl

length-snoc : (es : List Entry) (e : Entry) → length (es ++ e ∷ []) ≡ suc (length es)
length-snoc es e = let sum = length-append es (e ∷ []) in omega arith

list_down-last :
    (es : List Entry) (e : Entry)
    → list_down (es ++ e ∷ []) 0 (length (es ++ e ∷ [])) ≡ e ∷ list_down es 0 (length es)
unfolding list_down
list_down-last es e =
    rw
      (
        length-snoc es e,
        le→leb 0 (length es) (omega arith),
        list_down-front es e 0 (length es) (omega arith),
        entry_at-last es e (list_down es 0 (length es)),
      )
      refl

minus_self : (n : ℕ) → n - n ≡ 0
minus_self n = omega arith

abbrev listed : Result (List Entry) → List Entry
listed (ok es) = es
listed (err e) = []

-- Without a limit List gives the newest checkpoint first: after a Put, the new one and then what it
-- gave before.
pub list_entries-put :
    (json_copy : Value → Value) (fresh thread : String) (s : MemorySaver)
    (config cp asked : Dict Value) (before : List Entry)
    → text_at thread_key config ≡ some thread
    → text_at thread_key asked ≡ some thread
    → list_entries s asked 0 ≡ ok before
    → list_entries (put json_copy fresh s config cp).0 asked 0
      ≡ ok (new_entry json_copy fresh thread config cp ∷ before)
unfolding list_entries put
list_entries-put json_copy fresh thread s config cp asked before h t b =
    let old : list_from (some thread) s 0 ≡ ok before = rw t at b in
    let was : before ≡ list_down (entries_of s thread) 0 (length (entries_of s thread)) =
      sym (ap listed old)
      ∙ ap (λ low. list_down (entries_of s thread) low (length (entries_of s thread)))
          (minus_self (length (entries_of s thread))) in
    rw
      (
        t,
        h,
        entries_of-put_self json_copy fresh s config cp thread,
        minus_self,
        list_down-last (entries_of s thread) (stored json_copy fresh s config cp thread),
        was,
      )
      refl

length-entry_at :
    (es : List Entry) (i : ℕ) (rest : List Entry) → length (entry_at es i rest) ≤ suc (length rest)
length-entry_at [] i rest = omega arith
length-entry_at (e ∷ es) zero rest = omega arith
length-entry_at (e ∷ es) (suc i) rest = length-entry_at es i rest

length-list_down : (es : List Entry) (low i : ℕ) → length (list_down es low i) ≤ i - low
unfolding list_down
length-list_down es low zero = omega arith
length-list_down es low (suc i) = elim (Bool-cases (leb low i)) [
  | inl more ↦ rw more (
      let ih = length-list_down es low i in
      let one = length-entry_at es i (list_down es low i) in
      let room = leb→le low i more in omega arith)
  | inr done ↦ rw done (omega arith)
]

list_from-bounded :
    (o : Option String) (s : MemorySaver) (limit : ℕ)
    → 1 ≤ limit
    → Ensures (λ es. length es ≤ limit) (list_from o s limit)
list_from-bounded none s limit h = tt
list_from-bounded (some thread) s limit h =
    let all = length (entries_of s thread) in
    let n = if nat_beq limit 0 || ltb all limit then all else limit in
    let few = length-list_down (entries_of s thread) (all - n) all in
    let small : n ≤ limit = ground arith in omega arith

-- With a limit other than 0 List gives at most that many checkpoints.
pub length-list_entries :
    (s : MemorySaver) (asked : Dict Value) (limit : ℕ) (es : List Entry)
    → 1 ≤ limit
    → list_entries s asked limit ≡ ok es
    → length es ≤ limit
unfolding list_entries
length-list_entries s asked limit es h e =
    subst (Ensures (λ es'. length es' ≤ limit)) e
      (list_from-bounded (text_at thread_key asked) s limit h)

-- ===== src/OwnerStore/Refines.antt =====
-- The owner key store of custom_components/nimly_manager/owner_store.py as a map from config entries
-- to records, which a restart of Home Assistant keeps.
use mathlib.Core.Path.{fun_ext, subst}
use nimly_manager.Base.{
  ◌≡◌, refl, ap, sym, ◌∙◌, ℕ, Bool, true, false, Option, none, some, is_some, List, [], ◌∷◌, arith,
  Option-cases, inl, inr, if◌then◌else◌,
}
use nimly_manager.Text.{Text, text, text_eq, text_eq_iff}
use nimly_manager.Dict.Texts.{
  lookup, insert, remove, lookup-insert, lookup-remove, IsDict, insert-IsDict, remove-IsDict,
}
use nimly_manager.KeyStore.{OwnerRecord}
use nimly_manager.KeyStore.Dictionary.{from_arguments, as_dict}
use nimly_manager.OwnerStore
use nimly_manager.OwnerStore.{
  NimlyOwnerKeyStore, StoredLock, Locks, arguments, unknown_key, not_dictionary, parsed, keep,
  load_all, loaded, async_load, serialize, store_records, async_save_record, async_remove,
}

-- What the store promises: a map, in which only enrolled records are put.
abbrev pub Records : Type 0
Records = Text → Option OwnerRecord

abbrev pub update : Records → Text → Option OwnerRecord → Records
update f k v j = if text_eq k j then v else f j

pub data Call : Type 0 where
  save_record : Text → OwnerRecord → Call
  remove_record : Text → Call
  -- Home Assistant stops, and loads the store again at a time.
  restart : ℕ → Call

unfoldable pub perform : Call → NimlyOwnerKeyStore → NimlyOwnerKeyStore
unfolding async_save_record async_remove async_load
perform (save_record k r) s = (async_save_record k r s).1
perform (remove_record k) s = async_remove k s
perform (restart now) s = async_load now s.file

unfoldable pub run : List Call → NimlyOwnerKeyStore → NimlyOwnerKeyStore
unfolding perform
run [] s = s
run (c ∷ cs) s = run cs (perform c s)

abbrev pub is_enrolled : OwnerRecord → Bool
is_enrolled r = text_eq r.stage (text "enrolled")

-- the same call, on a map
unfoldable pub expected : Call → Records → Records
expected (save_record k r) f = if is_enrolled r then update f k (some r) else f
expected (remove_record k) f = update f k none
expected (restart now) f = f

unfoldable pub replay : List Call → Records → Records
unfolding expected
replay [] f = f
replay (c ∷ cs) f = replay cs (expected c f)

load_all-lookup :
    (now : ℕ) (k : Text) (l d : List (Text × OwnerRecord))
    → IsDict l
    → lookup k (load_all now (serialize l) d)
      ≡ (if is_some (lookup k l) then lookup k l else lookup k d)
unfolding load_all serialize lookup IsDict from_arguments as_dict
load_all-lookup now k [] d h = refl
load_all-lookup now k ((j, r) ∷ l) d h =
    ground (arith, text_eq_iff j k, lookup-insert j k r d, load_all-lookup now k l (insert j r d))

keep-IsDict :
    (k : Text) (r : Option OwnerRecord) (d : List (Text × OwnerRecord))
    → IsDict d
    → IsDict (keep k r d)
keep-IsDict k none d h = h
keep-IsDict k (some r) d h = insert-IsDict k r d h

load_all-IsDict :
    (now : ℕ) (l : Locks) (d : List (Text × OwnerRecord)) → IsDict d → IsDict (load_all now l d)
unfolding load_all
load_all-IsDict now [] d h = h
load_all-IsDict now ((k, raw) ∷ l) d h =
    load_all-IsDict now l (keep k (parsed now raw) d) (keep-IsDict k (parsed now raw) d h)

loaded-IsDict : (now : ℕ) (file : Option Locks) → IsDict (loaded now file)
unfolding IsDict
loaded-IsDict now none = tt
loaded-IsDict now (some l) = load_all-IsDict now l [] tt

-- A store whose file holds its records.
pub record IsKept (s : NimlyOwnerKeyStore) : Type 0 where
  pub dict : IsDict s.records
  pub saved : (now : ℕ) (k : Text) → lookup k (loaded now s.file) ≡ lookup k s.records

read_back :
    (k : Text) (l : List (Text × OwnerRecord))
    → (if is_some (lookup k l) then lookup k l else lookup k []) ≡ lookup k l
unfolding lookup
read_back k l = elim (Option-cases (lookup k l)) [ inl e ↦ rw e | inr (r, e) ↦ rw e ]

store_records-IsKept : (l : List (Text × OwnerRecord)) → IsDict l → IsKept (store_records l)
unfolding store_records
store_records-IsKept l h = record {
  dict = h;
  saved = λ now k. load_all-lookup now k l [] h ∙ read_back k l;
}

saved-IsKept :
    (k : Text) (r : OwnerRecord) (s : NimlyOwnerKeyStore)
    → IsKept s
    → (accepted : Bool) → is_enrolled r ≡ accepted
    → IsKept (async_save_record k r s).1
unfolding async_save_record
saved-IsKept k r s h true e =
    subst IsKept (ground arith)
      (store_records-IsKept (insert k r s.records) (insert-IsDict k r s.records h.dict))
saved-IsKept k r s h false e = subst IsKept (ground arith) h

removed-IsKept :
    (k : Text) (s : NimlyOwnerKeyStore)
    → IsKept s
    → (known : Bool) → is_some (lookup k s.records) ≡ known
    → IsKept (async_remove k s)
unfolding async_remove
removed-IsKept k s h true e =
    subst IsKept (ground arith)
      (store_records-IsKept (remove k s.records) (remove-IsDict k s.records h.dict))
removed-IsKept k s h false e = subst IsKept (ground arith) h

pub perform-IsKept : (c : Call) (s : NimlyOwnerKeyStore) → IsKept s → IsKept (perform c s)
unfolding perform async_load
perform-IsKept (save_record k r) s h = saved-IsKept k r s h (is_enrolled r) refl
perform-IsKept (remove_record k) s h = removed-IsKept k s h (is_some (lookup k s.records)) refl
perform-IsKept (restart now) s h = record {
  dict = loaded-IsDict now s.file;
  saved = λ now' k. h.saved now' k ∙ sym (h.saved now k);
}

perform_refines :
    (c : Call) (s : NimlyOwnerKeyStore) (k : Text)
    → IsKept s
    → OwnerStore.get k (perform c s) ≡ expected c (λ j. OwnerStore.get j s) k
unfolding perform async_save_record async_remove async_load expected OwnerStore.get store_records
perform_refines (save_record j r) s k h = ground (arith, lookup-insert j k r s.records)
perform_refines (remove_record j) s k h =
    ground (arith, lookup-remove j k s.records, text_eq_iff j k)
perform_refines (restart now) s k h = h.saved now k

pub run_refines :
    (cs : List Call) (s : NimlyOwnerKeyStore)
    → IsKept s
    → IsKept (run cs s) × ((λ k. OwnerStore.get k (run cs s)) ≡ replay cs (λ k. OwnerStore.get k s))
unfolding run replay
run_refines [] s h = (h, refl)
run_refines (c ∷ cs) s h =
    let (kept, same) = run_refines cs (perform c s) (perform-IsKept c s h) in
    (kept, same ∙ ap (replay cs) (fun_ext (λ k. perform_refines c s k h)))

no_file-IsKept : (now : ℕ) → IsKept (async_load now none)
unfolding async_load IsDict
no_file-IsKept now = record { dict = tt; saved = λ n k. refl }

-- Over any saves, removals and restarts from a Home Assistant that has no file of owner records, the
-- store reads as the map that the same calls make of the empty one: a save puts its record in place
-- only where that is enrolled, a removal takes it away, and a restart changes nothing. What the file
-- then holds loads as that map, at any time.
pub run_refines_map :
    (cs : List Call) (start now : ℕ)
    → ((λ k. OwnerStore.get k (run cs (async_load start none))) ≡ replay cs (λ k. none))
      × ((λ k. OwnerStore.get k (async_load now (run cs (async_load start none)).file))
          ≡ replay cs (λ k. none))
unfolding OwnerStore.get async_load lookup
run_refines_map cs start now =
    let (kept, same) = run_refines cs (async_load start none) (no_file-IsKept start) in
    (same, fun_ext (λ k. kept.saved now k) ∙ same)

-- ===== src/Owner/Durable.antt =====
-- What `enroll` does with the new owner key before it sends anything else:
-- custom_components/nimly_manager/nimly_ble/enrollment.py.
use mathlib.Core.Path.{subst}
use nimly_manager.Base.{ℕ, ◌≡◌, refl, sym, ap, ◌∙◌, Bool, true, false, arith, some, Bytes, IsBytes}
use nimly_manager.Base.Result.{Result, ok, err}
use nimly_manager.Base.Exec.{Keeps, >>=-brings, >>=-returned, >>=-raised}
use nimly_manager.Text.{Text, text}
use nimly_manager.Text.Hex.{from_hex-to_hex}
use nimly_manager.Crypto.{Cbc, Curve}
use nimly_manager.KeyStore.{
  Disk, sound, before_replace, after_replace, clock, disk_error, OwnerRecord, OwnerKeyStore, save,
  load, owner_key, device_id,
}
use nimly_manager.KeyStore.Laws.{replaces, load-put, save-returned}
use nimly_manager.Owner.{Draws, Owner, OwnerError, store_error, on_store, stored-ok}
use nimly_manager.Owner.Kept.{configure-Keeps, name_and_save-Keeps}
use nimly_manager.Owner.Flows.{received, configure, take_over, negotiate, enroll}

-- The store holds the key and the device id in the record of the lock, as text that reads back.
pub record Held (address : Text) (key id : Bytes) (store : OwnerKeyStore) : Type 0 where
  pub kept : OwnerRecord
  pub loaded : load address store ≡ some kept
  pub address_kept : kept.lock_address ≡ address
  pub key_kept : owner_key kept ≡ some key
  pub id_kept : device_id kept ≡ some id

-- A write that does not put its file in place raises, and changes nothing.
save_lost :
    (disk : Disk) (now : ℕ) (r : OwnerRecord) (s : Owner)
    → replaces disk ≡ false
    → on_store (save disk now r) s ≡ (err (store_error disk_error), s)
unfolding save
save_lost sound now r s h = absurd (ground arith)
save_lost before_replace now r s h = refl
save_lost after_replace now r s h = absurd (ground arith)

-- A record with the key that is put in place is held.
save-Held :
    (address : Text) (key id : Bytes) (disk : Disk) (now : ℕ) (r : OwnerRecord)
    (store : OwnerKeyStore)
    → replaces disk ≡ true
    → r.lock_address ≡ address
    → owner_key r ≡ some key
    → device_id r ≡ some id
    → Held address key id (save disk now r store).1
unfolding owner_key device_id
save-Held address key id disk now r store put a k i = record {
  kept = record r { updated = clock now };
  loaded = load-put disk now r store address put a;
  address_kept = a;
  key_kept = k;
  id_kept = i;
}

module _ (address : Text) (key id : Bytes) where
  abbrev HeldBy : Owner → Type 0
  HeldBy s = Held address key id s.store

  save-Keeps :
      (disk : Disk) (now : ℕ) (r : OwnerRecord)
      → r.lock_address ≡ address
      → owner_key r ≡ some key
      → device_id r ≡ some id
      → Keeps HeldBy (on_store (save disk now r))
  unfolding save
  save-Keeps sound now r a k i s h = save-Held address key id sound now r s.store refl a k i
  save-Keeps before_replace now r a k i s h = h
  save-Keeps after_replace now r a k i s h =
      save-Held address key id after_replace now r s.store refl a k i

  enrolled-Keeps :
      (aes : Cbc) (curve : Curve) (draws : Draws) (name : Text) (r : OwnerRecord)
      → r.lock_address ≡ address
      → owner_key r ≡ some key
      → device_id r ≡ some id
      → Keeps HeldBy (configure aes curve draws name r)
  unfolding owner_key device_id
  enrolled-Keeps aes curve draws name r a k i =
      let Q = Held address key id in
      configure-Keeps Q aes curve draws name r (
        name_and_save-Keeps Q aes curve draws name r (
          save-Keeps draws.last_write draws.enrolled_at (record r { stage = text "enrolled" }) a k
            i))

module _ (aes : Cbc) (curve : Curve) (pem_of : ℕ → Text) (draws : Draws) (address name : Text)
    (key : Bytes) where
  take_over-Held :
      (s : Owner)
      → replaces draws.first_write ≡ true
      → IsBytes key
      → IsBytes draws.device_id
      → Held address key draws.device_id
          (take_over aes curve pem_of draws address name key s).1.store
  unfolding take_over received owner_key device_id
  take_over-Held s put hk hi =
      let r = received pem_of draws address name key in
      let k : owner_key r ≡ some key = from_hex-to_hex key hk in
      let i : device_id r ≡ some draws.device_id = from_hex-to_hex draws.device_id hi in
      >>=-brings (HeldBy address key draws.device_id)
        (on_store (save draws.first_write draws.received_at r)) (configure aes curve draws name) s
        (save-Held address key draws.device_id draws.first_write draws.received_at r s.store put
          refl k i)
        (λ q e.
          let saved =
            save-returned draws.first_write draws.received_at r q s.store
              (stored-ok (save draws.first_write draws.received_at r s.store).0 q e) in
          subst (λ x. Keeps (HeldBy address key draws.device_id) (configure aes curve draws name x))
            (sym saved)
            (enrolled-Keeps address key draws.device_id aes curve draws name
              (record r { updated = clock draws.received_at }) refl k i))

  -- What `enroll` ends with, by whether the first write puts its file in place: the agreed key is
  -- held; or the error of the disk is raised, with the session and the store of this state.
  abbrev pub Persisted : Bool → Owner → Result OwnerError OwnerRecord × Owner → Type 0
  Persisted true s end = Held address key draws.device_id end.1.store
  Persisted false s end = end ≡ (err (store_error disk_error), s)

  take_over-Persisted :
      (s : Owner) (put : Bool)
      → replaces draws.first_write ≡ put
      → IsBytes key
      → IsBytes draws.device_id
      → Persisted put s (take_over aes curve pem_of draws address name key s)
  unfolding take_over
  take_over-Persisted s true h hk hi = take_over-Held s h hk hi
  take_over-Persisted s false h hk hi =
      let r = received pem_of draws address name key in
      let write = on_store (save draws.first_write draws.received_at r) in
      let lost = save_lost draws.first_write draws.received_at r s h in
      >>=-raised write (configure aes curve draws name) s (store_error disk_error)
        (ap (λ x. x.0) lost)
      ∙ ap (λ x. (err (store_error disk_error), x.1)) lost

  -- Where the key agreement of enroll has returned a key to the program, which like the device id is
  -- a sequence of bytes, and the first write puts its file in place, the store in the end loads a
  -- record of the lock with that owner key and the device id, whether the rest of enroll returns or
  -- raises. Where the first write does not put its file in place, enroll raises the error of the
  -- disk, sends nothing more and leaves the store as it was: the key is lost.
  pub enroll_persists :
      (s : Owner)
      → (negotiate aes curve draws address s).0 ≡ ok key
      → IsBytes key
      → IsBytes draws.device_id
      → Persisted
          (replaces draws.first_write)
          (negotiate aes curve draws address s).1
          (enroll aes curve pem_of draws address name s)
  unfolding enroll
  enroll_persists s agreed hk hi =
      let after = (negotiate aes curve draws address s).1 in
      subst (Persisted (replaces draws.first_write) after)
        (sym (
          >>=-returned (negotiate aes curve draws address)
            (take_over aes curve pem_of draws address name) s key agreed))
        (take_over-Persisted after (replaces draws.first_write) refl hk hi)

-- ===== src/Integration/Installation.antt =====
-- Everything that happens to an installation: the actions and messages of its locks, the tasks of
-- their scans, and the life of their entries, in any order. The code is
-- custom_components/nimly_manager/__init__.py, services.py, websocket.py, mqtt.py and ble_scan.py.
use nimly_manager.Base.{◌≡◌, ℕ, Bool, Option, none, some, List, [], arith}
use nimly_manager.Base.Int.{ℤ}
use nimly_manager.Text.{Text}
use nimly_manager.Time.{DateTime}
use nimly_manager.Dict.Texts.{lookup}
use nimly_manager.KeyStore.{Json}
use nimly_manager.Entries.{ConfigEntry}
use nimly_manager.Storage
use nimly_manager.Runtime.{NimlyLockRuntime}
use nimly_manager.Runtime.Steps
use nimly_manager.Runtime.Steps.{Step-OneWorkflow}
use nimly_manager.Coordinator.{FingerprintScanCoordinator}
use nimly_manager.OwnerStore.{NimlyOwnerKeyStore}
use nimly_manager.Home.{Home, put_runtime}
use nimly_manager.ScanControl.{Order}
use nimly_manager.Actions
use nimly_manager.Integration.{
  async_setup_entry, async_unload_entry, async_remove_entry, receive_message, websocket_ble_setup,
}
use nimly_manager.Integration.Consistent.{
  IsConsistent, put_runtime-IsConsistent, start-Keeps, confirm-Keeps, cancel-Keeps,
  receive_message-IsConsistent,
}
use nimly_manager.Integration.Scans.{start_scan-Keeps, cancel_scan-Keeps}
use nimly_manager.Integration.Life.{
  async_setup_entry-Keeps, async_unload_entry-IsConsistent, async_remove_entry-IsConsistent,
  websocket_ble_setup-IsConsistent,
}

-- What `async_setup` makes, with the stores as they were loaded.
abbrev pub started : List (Text × ConfigEntry) → Option Storage.Entries → NimlyOwnerKeyStore → Home
started entries stored owner_store = record {
  runtimes = [];
  entries = entries;
  storage = Storage.async_load stored;
  owner_store = owner_store;
  coordinator = record { tasks = []; cancelled = []; fired = [] };
  fired = [];
}

-- One thing that happens. The scan's own methods, which its task calls, and a refresh are steps of the
-- runtime; the task leaves the coordinator in any state.
pub data Event : Home → Home → Type 0 where
  start :
      {h : Home} (entry_id uuid person_id name : Text) (slot : ℤ) (now : DateTime)
      → Event h (Actions.start entry_id uuid person_id name slot now h).1
  confirm :
      {h : Home} (entry_id session_id : Text) (now : DateTime)
      → Event h (Actions.confirm entry_id session_id now h).1
  cancel :
      {h : Home} (entry_id session_id : Text) (now : DateTime)
      → Event h (Actions.cancel entry_id session_id now h).1
  start_scan : {h : Home} (o : Order) → Event h (Actions.start_scan o h).1
  cancel_scan :
      {h : Home} (entry_id session_id : Text) (now : DateTime)
      → Event h (Actions.cancel_scan entry_id session_id now h).1
  message :
      {h : Home} (entry_id uuid : Text) (rt : NimlyLockRuntime) (json : Json) (now : DateTime)
      → lookup entry_id h.runtimes ≡ some rt
      → Event h (receive_message entry_id rt uuid json now h).1
  task :
      {h : Home} (entry_id : Text) (rt rt' : NimlyLockRuntime) (c : FingerprintScanCoordinator)
      → lookup entry_id h.runtimes ≡ some rt
      → Steps.Step rt rt'
      → Event h (record (put_runtime entry_id rt' h) { coordinator = c })
  setup_entry :
      {h : Home} (entry_id : Text) (e : ConfigEntry) (subscribes : Bool)
      → lookup entry_id h.entries ≡ some e
      → Event h (async_setup_entry entry_id e subscribes h).1
  unload_entry : {h : Home} (entry_id : Text) → Event h (async_unload_entry entry_id h)
  remove_entry :
      {h : Home} (entry_id : Text)
      → lookup entry_id h.runtimes ≡ none
      → Event h (async_remove_entry entry_id h)
  ble_setup :
      {h : Home} (loads : Text → Json) (now : ℕ) (entry_id address : Text) (pasted : Option Text)
      → Event h (websocket_ble_setup loads now entry_id address pasted h).1
  -- Home Assistant adds entries and takes them away, and the options flow sets one up.
  entries_changed :
      {h : Home} (es : List (Text × ConfigEntry)) (s : NimlyOwnerKeyStore)
      → Event h (record h { entries = es; owner_store = s })

pub data Reach : Home → Home → Type 0 where
  here : {h : Home} → Reach h h
  next : {a b c : Home} → Reach a b → Event b c → Reach a c

pub Event-IsConsistent : {a b : Home} → Event a b → IsConsistent a → IsConsistent b
Event-IsConsistent {a} (Event.start entry_id uuid person_id name slot now) c =
    start-Keeps entry_id uuid person_id name slot now a c
Event-IsConsistent {a} (Event.confirm entry_id session_id now) c =
    confirm-Keeps entry_id session_id now a c
Event-IsConsistent {a} (Event.cancel entry_id session_id now) c =
    cancel-Keeps entry_id session_id now a c
Event-IsConsistent {a} (Event.start_scan o) c = start_scan-Keeps o a c
Event-IsConsistent {a} (Event.cancel_scan entry_id session_id now) c =
    cancel_scan-Keeps entry_id session_id now a c
Event-IsConsistent {a} (Event.message entry_id uuid rt json now found) c =
    receive_message-IsConsistent entry_id uuid rt json now a found c
Event-IsConsistent {a} (Event.task entry_id rt rt' d found step) c =
    put_runtime-IsConsistent entry_id rt rt' a found (Step-OneWorkflow step (c entry_id rt found).0)
      c
Event-IsConsistent {a} (Event.setup_entry entry_id e subscribes known) c =
    async_setup_entry-Keeps entry_id e subscribes a c
Event-IsConsistent {a} (Event.unload_entry entry_id) c =
    async_unload_entry-IsConsistent entry_id a c
Event-IsConsistent {a} (Event.remove_entry entry_id gone) c =
    async_remove_entry-IsConsistent entry_id a gone c
Event-IsConsistent {a} (Event.ble_setup loads now entry_id address pasted) c =
    websocket_ble_setup-IsConsistent loads now entry_id address pasted a c
Event-IsConsistent (Event.entries_changed es s) c = c

reach-IsConsistent : {a b : Home} → Reach a b → IsConsistent a → IsConsistent b
reach-IsConsistent Reach.here c = c
reach-IsConsistent (Reach.next r e) c = Event-IsConsistent e (reach-IsConsistent r c)

-- After whatever happens to an installation that has just been set up, in any order and for any number
-- of locks, each loaded lock has at most one workflow active, and the slots that it works on are the
-- ones that the storage holds for its entry.
pub installation-IsConsistent :
    {h : Home} (entries : List (Text × ConfigEntry)) (stored : Option Storage.Entries)
    (owner_store : NimlyOwnerKeyStore)
    → Reach (started entries stored owner_store) h
    → IsConsistent h
unfolding lookup
installation-IsConsistent entries stored owner_store r =
    reach-IsConsistent r (λ k rt e. absurd (ground arith))

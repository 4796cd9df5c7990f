-- ===== src/Entries/Topics.antt =====
-- The topics of the entries that the config flow makes: `async_step_user` of
-- custom_components/nimly_manager/config_flow.py with `state_topic` of const.py beside it.
use mathlib.Core.Path.{subst}
use nimly_manager.Base.{
  ℕ, ◌≡◌, refl, Bool, true, false, ◌||◌, List, [], ◌∷◌, ◌==◌, arith, if◌then◌else◌, Bool-cases, inl,
  inr,
}
use nimly_manager.Text.{Text, text_eq, strip}
use nimly_manager.Text.Trim.{has, has-trim, has-append, has-strip}
use nimly_manager.Entries.{
  is_slash, clean, join_topic, state_topic, ConfigEntry, create_entry, has_wildcard, create,
  async_step_user, new_entry,
}

has-join_topic :
    (c : ℕ) (b d : Text)
    → (b'/' == c) ≡ false
    → has c b ≡ false
    → has c d ≡ false
    → has c (join_topic b d) ≡ false
unfolding join_topic has
has-join_topic c b d s hb hd = ground (arith, has-append c b (b'/' ∷ d))

has-clean : (c : ℕ) (s : Text) → has c s ≡ false → has c (clean s) ≡ false
unfolding clean
has-clean c s h = has-trim is_slash c (strip s) (has-strip c s h)

has-state_topic :
    (c : ℕ) (b d : Text)
    → (b'/' == c) ≡ false
    → has c b ≡ false
    → has c d ≡ false
    → has c (state_topic b d) ≡ false
unfolding state_topic
has-state_topic c b d s hb hd =
    has-join_topic c (clean b) (clean d) s (has-clean c b hb) (has-clean c d hd)

no_wildcard :
    (b d : Text)
    → has_wildcard b ≡ false
    → has_wildcard d ≡ false
    → has_wildcard (state_topic b d) ≡ false
unfolding has_wildcard
no_wildcard b d hb hd = ground (arith, has-state_topic b'#' b d refl, has-state_topic b'+' b d refl)

-- An entry whose topic is the one of its parts, and can be subscribed to without a wildcard.
pub record IsListening (e : ConfigEntry) : Type 0 where
  pub topic : e.unique_id ≡ state_topic e.base_topic e.device_name
  pub tame : has_wildcard e.unique_id ≡ false

-- An entry has the topic as its id.
abbrev pub is_configured : Text → List ConfigEntry → Bool
is_configured topic [] = false
is_configured topic (e ∷ es) = text_eq e.unique_id topic || is_configured topic es

-- Every entry listens to a topic of its own.
pub IsSeparate : List ConfigEntry → Type 0
IsSeparate [] = Unit
IsSeparate (e ∷ es) = IsListening e × (is_configured e.unique_id es ≡ false) × IsSeparate es

new_entry-IsListening :
    (b d : Text)
    → has_wildcard b ≡ false
    → has_wildcard d ≡ false
    → IsListening (new_entry (state_topic b d) b d)
unfolding new_entry
new_entry-IsListening b d hb hd = record { topic = refl; tame = no_wildcard b d hb hd }

module _ (configured : Text → Bool) where
  -- What an entry that a step creates is.
  abbrev IsNew : ConfigEntry → Type 0
  IsNew e = IsListening e × (configured e.unique_id ≡ false)

  new_entry-IsNew :
      (b d : Text)
      → has_wildcard b ≡ false
      → has_wildcard d ≡ false
      → configured (state_topic b d) ≡ false
      → IsNew (new_entry (state_topic b d) b d)
  unfolding new_entry
  new_entry-IsNew b d hb hd fresh = (new_entry-IsListening b d hb hd, fresh)

  create-IsNew :
      (b d : Text) (e : ConfigEntry)
      → has_wildcard b ≡ false
      → has_wildcard d ≡ false
      → create configured b d ≡ create_entry e
      → IsNew e
  unfolding create
  create-IsNew b d e hb hd h = elim (Bool-cases (configured (state_topic b d))) [
    | inl known ↦ absurd (ground arith)
    | inr fresh ↦ subst IsNew (ground arith) (new_entry-IsNew b d hb hd fresh)
  ]

  async_step_user-IsNew :
      (b d : Text) (e : ConfigEntry) → async_step_user configured b d ≡ create_entry e → IsNew e
  unfolding async_step_user
  async_step_user-IsNew b d e h = ground (arith, create-IsNew (clean b) (clean d) e)

  -- What Home Assistant's test is documented to do: it finds the id of each entry.
  abbrev pub Finds : List ConfigEntry → Type 0
  Finds es = (topic : Text) → is_configured topic es ≡ true → configured topic ≡ true

  fresh_topic :
      (es : List ConfigEntry) (topic : Text)
      → Finds es
      → configured topic ≡ false
      → is_configured topic es ≡ false
  fresh_topic es topic finds h = elim (Bool-cases (is_configured topic es)) [
    | inl known ↦ absurd (ground (arith, finds topic known))
    | inr fresh ↦ fresh
  ]

-- The entries but the one of a topic.
abbrev pub delete : Text → List ConfigEntry → List ConfigEntry
delete topic [] = []
delete topic (e ∷ es) = if text_eq e.unique_id topic then es else e ∷ delete topic es

delete_brings :
    (topic new : Text) (es : List ConfigEntry)
    → is_configured new es ≡ false
    → is_configured new (delete topic es) ≡ false
delete_brings topic new [] h = refl
delete_brings topic new (e ∷ es) h = ground (arith, delete_brings topic new es)

delete-IsSeparate :
    (topic : Text) (es : List ConfigEntry) → IsSeparate es → IsSeparate (delete topic es)
unfolding IsSeparate
delete-IsSeparate topic [] h = tt
delete-IsSeparate topic (e ∷ es) (l, f, h) = elim (Bool-cases (text_eq e.unique_id topic)) [
  | inl same ↦ rw same h
  | inr other ↦ rw other (l, delete_brings topic e.unique_id es f, delete-IsSeparate topic es h)
]

-- The entries that steps of the flow create, and that are removed again.
pub data Made : List ConfigEntry → Type 0 where
  none_yet : Made []
  step_user :
      {es : List ConfigEntry} {e : ConfigEntry} (configured : Text → Bool) (b d : Text)
      → Made es
      → Finds configured es
      → async_step_user configured b d ≡ create_entry e
      → Made (e ∷ es)
  removed : {es : List ConfigEntry} (topic : Text) → Made es → Made (delete topic es)

-- Where Home Assistant's test finds the id of each entry that is there, then of the entries that any
-- sequence of user steps and removals leaves, each has the state topic of its
-- base topic and device name as its id, with neither "#" nor "+" in it, and no two share one.
pub Made-IsSeparate : {es : List ConfigEntry} → Made es → IsSeparate es
unfolding IsSeparate
Made-IsSeparate none_yet = tt
Made-IsSeparate (step_user {es} {e} configured b d m finds h) =
    let (listens, fresh) = async_step_user-IsNew configured b d e h in
    (listens, fresh_topic configured es e.unique_id finds fresh, Made-IsSeparate m)
Made-IsSeparate (removed topic m) = delete-IsSeparate topic _ (Made-IsSeparate m)

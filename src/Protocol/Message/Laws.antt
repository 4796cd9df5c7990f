-- ===== src/Protocol/Message/Laws.antt =====
-- Commands and responses: the layouts agree, and the references of commands.
use nimly_manager.Base.{
  ℕ, zero, suc, ◌+◌, ◌%◌, ◌≤◌, ◌<◌, ◌≡◌, ◌≢◌, refl, Bool, true, ◌∷◌, ◌++◌, arith, Bytes, length,
  take-append, length-append,
}
use nimly_manager.Base.Result.{ok}
use nimly_manager.Protocol.Message.{
  CommandId, command_code, Command, to_bytes, from_bytes, event_ref, CommandRefCounter, new_counter,
  next,
}

command_code-lt : (c : CommandId) → command_code c < 256
unfolding command_code
command_code-lt c = ground arith

-- A command that the class accepts is encoded, and a reader of the response layout, with any
-- padding behind the message, gets its identifier, reference and payload, and the status 0.
pub command_roundtrip :
    (c : Command) (padding : Bytes)
    → 1 ≤ c.ref
    → c.ref ≤ 254
    → length c.payload ≤ 255
    → (wire : Bytes) × (to_bytes c ≡ ok wire)
      × (from_bytes (wire ++ padding)
          ≡ ok (record { id = command_code c.id; ref = c.ref; status = 0; payload = c.payload }))
      × (length wire ≡ length c.payload + 4)
unfolding to_bytes from_bytes
command_roundtrip c padding lo hi short = (
  command_code c.id ∷ length c.payload ∷ c.ref ∷ 0 ∷ c.payload,
  ground (arith, command_code-lt c.id),
  ground (arith, take-append c.payload padding, length-append c.payload padding),
  omega arith,
)

-- The counter after `n` calls of `next`.
abbrev pub after : ℕ → CommandRefCounter → CommandRefCounter
after zero c = c
after (suc n) c = (next (after n c)).1

-- A counter as `new_counter` and `next` make it.
pub record IsCounter (c : CommandRefCounter) : Type 0 where
  pub above : 1 ≤ c.next_ref
  pub below : c.next_ref ≤ 127

pub next-IsCounter : (c : CommandRefCounter) → IsCounter c → IsCounter (next c).1
unfolding next
next-IsCounter c h = ground arith

after-IsCounter : (n : ℕ) (counting : Bool) → IsCounter (after n (new_counter counting))
unfolding new_counter
after-IsCounter zero counting = omega arith
after-IsCounter (suc n) counting =
    next-IsCounter (after n (new_counter counting)) (after-IsCounter n counting)

-- Whatever the firmware and however many commands were sent, the next reference is one that
-- Command.to_bytes accepts, and it is never the reference of an event.
pub ref_valid :
    (n : ℕ) (counting : Bool)
    → let ref = (next (after n (new_counter counting))).0 in
      (1 ≤ ref) × (ref ≤ 127) × (ref ≢ event_ref)
unfolding next
ref_valid n counting = ground (arith, after-IsCounter n counting)

counting-after : (n : ℕ) → (after n (new_counter true)).counting ≡ true
unfolding new_counter next
counting-after zero = refl
counting-after (suc n) = ground (arith, counting-after n)

next_ref-after : (n : ℕ) → (after n (new_counter true)).next_ref ≡ n % 127 + 1
unfolding new_counter next
next_ref-after zero = refl
next_ref-after (suc n) = ground (arith, counting-after n, next_ref-after n)

-- A counting counter gives the references 1 to 127 in turn: the (n + 1)-th is n modulo 127, plus 1.
pub ref_cycle : (n : ℕ) → (next (after n (new_counter true))).0 ≡ n % 127 + 1
unfolding next
ref_cycle n = ground (arith, counting-after n, next_ref-after n)

-- ===== src/Idempotency.antt =====
-- rs2-core/src/idempotency.rs: the in-memory idempotency store. Instants are nanoseconds on the
-- monotonic clock, one for each operation, which holds the lock throughout. The hash map is a list of
-- slots with their entries; its order stands for the order in which the map is iterated.
pub mod Slots
pub mod Sweep
pub mod Runs
pub mod Replay
pub mod Contract
pub mod Capacity
pub mod Http
mod Tests
use rs2_runtime.Common.{
  ℕ, ◌+◌, ◌-◌, ◌/◌, ◌%◌, ◌^◌, Bool, true, false, ◌&&◌, ◌||◌, Option, none, some, List, [], ◌∷◌, leb,
  ◌==◌, not, length, take, keep, if◌then◌else◌,
}
use rs2_runtime.Common.Sort.{sort_by}
use rs2_runtime.Common.Text.{Text, text_eq}
use rs2_runtime.Message.{Bytes}

pub record StoredResponse : Type 0 where
  pub status : ℕ
  pub headers : List (Text × Text)
  pub body : Option (Bytes × Text)

-- `Begin`, what the registration of a key gives.
pub data Outcome : Type 0 where
  fresh in_flight_already payload_mismatch : Outcome
  replay : StoredResponse → Outcome

pub data EntryState : Type 0 where
  in_flight : EntryState
  done : StoredResponse → ℕ → EntryState

pub record Entry : Type 0 where
  pub payload_hash : Option Text
  pub state : EntryState

-- The key of the map: a scope and an idempotency key.
pub record Slot : Type 0 where
  pub scope : Text
  pub key : Text

abbrev pub Entries : Type 0
Entries = List (Slot × Entry)

pub record Store : Type 0 where
  pub window : ℕ
  pub max_entries : ℕ
  pub entries : Entries
  pub begins : ℕ

unfoldable pub slot_eq : Slot → Slot → Bool
slot_eq a b = text_eq a.scope b.scope && text_eq a.key b.key

abbrev pub get : Slot → Entries → Option Entry
get slot [] = none
get slot ((k, e) ∷ es) = let rest = get slot es in if slot_eq k slot then some e else rest

abbrev pub remove : Slot → Entries → Entries
remove slot es = keep (λ x. not (slot_eq x.0 slot)) es

abbrev pub insert : Slot → Entry → Entries → Entries
insert slot e es = (slot, e) ∷ remove slot es

-- A change through `get_mut`: nothing where the slot is not there.
abbrev pub set_state : Slot → EntryState → Entries → Entries
set_state slot s [] = []
set_state slot s ((k, e) ∷ es) =
    let rest = set_state slot s es in
    if slot_eq k slot then (k, record e { state = s }) ∷ es else (k, e) ∷ rest

abbrev pub sweep_every : ℕ
sweep_every = 4096

abbrev pub default_max_entries : ℕ
default_max_entries = 100_000

abbrev pub with_capacity : ℕ → ℕ → Store
with_capacity window max_entries = record {
  window = window;
  max_entries = max_entries;
  entries = [];
  begins = 0;
}

abbrev pub new : ℕ → Store
new window = with_capacity window default_max_entries

-- The test of `retain`: an entry in flight stays, and one that is done while the window covers it.
abbrev pub live_state : ℕ → ℕ → EntryState → Bool
live_state window now in_flight = true
live_state window now (done r at) = leb (now - at) window

abbrev pub live : ℕ → ℕ → Slot × Entry → Bool
live window now (slot, e) = live_state window now e.state

abbrev pub add_done : Slot → EntryState → List (Slot × ℕ) → List (Slot × ℕ)
add_done slot in_flight rest = rest
add_done slot (done r at) rest = (slot, at) ∷ rest

-- The slots that are done, with the instants.
abbrev pub done_of : Entries → List (Slot × ℕ)
done_of [] = []
done_of ((slot, e) ∷ es) = add_done slot e.state (done_of es)

abbrev pub older : Slot × ℕ → Slot × ℕ → Bool
older a b = leb a.1 b.1

abbrev pub remove_all : List (Slot × ℕ) → Entries → Entries
remove_all [] es = es
remove_all ((slot, at) ∷ rest) es = remove_all rest (remove slot es)

-- The oldest entries that are done, an eighth of the cap and one more.
abbrev pub oldest : ℕ → Entries → List (Slot × ℕ)
oldest max_entries es = take (max_entries / 8 + 1) (sort_by older (done_of es))

unfoldable pub evict : ℕ → Entries → Entries
evict max_entries es =
    if leb max_entries (length es) then remove_all (oldest max_entries es) es else es

unfoldable pub sweep : ℕ → ℕ → ℕ → Bool → Entries → Entries
sweep window max_entries now force_evict es =
    let retained = keep (live window now) es in
    if force_evict then evict max_entries retained else retained

abbrev pub expire_entry : ℕ → ℕ → Slot → Option Entry → Entries → Entries
expire_entry window now slot none es = es
expire_entry window now slot (some e) es = if live window now (slot, e) then es else remove slot es

-- The addressed slot is dropped if it has expired.
unfoldable pub expire : ℕ → ℕ → Slot → Entries → Entries
expire window now slot es = expire_entry window now slot (get slot es) es

abbrev pub mismatch : Option Text → Option Text → Bool
mismatch (some stored) (some incoming) = not (text_eq stored incoming)
mismatch _ _ = false

abbrev pub found : EntryState → Outcome
found in_flight = in_flight_already
found (done r at) = replay r

abbrev pub answer : Slot → Option Text → Option Entry → Entries → Entries × Outcome
answer slot hash none es =
    (insert slot (record { payload_hash = hash; state = in_flight }) es, fresh)
answer slot hash (some e) es =
    (es, if mismatch e.payload_hash hash then payload_mismatch else found e.state)

-- Registers a key before its request is executed.
unfoldable pub prepare : ℕ → Slot → Store → Entries
prepare now slot store =
    let swept = sweep store.window store.max_entries now true store.entries in
    let es =
      if (store.begins % sweep_every == 0) || leb store.max_entries (length store.entries)
      then swept
      else store.entries in
    expire store.window now slot es

unfoldable pub begin : ℕ → Slot → Option Text → Store → Store × Outcome
begin now slot hash store =
    let es = prepare now slot store in
    let (entries, outcome) = answer slot hash (get slot es) es in
    (record store { entries = entries; begins = (store.begins + 1) % 2 ^ 64 }, outcome)

unfoldable pub complete : ℕ → Slot → StoredResponse → Store → Store
complete now slot response store = record store {
  entries = set_state slot (done response now) store.entries;
}

unfoldable pub abandon : Slot → Store → Store
abandon slot store = record store { entries = remove slot store.entries }

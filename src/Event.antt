-- ===== src/Event.antt =====
-- `LogBuffer` of service/src/event/buffer.rs: the log entries that wait to be written.
pub mod Last
pub mod Processor
pub mod Dns
use ceasefire.Prelude.{ℕ, List, [], ◌∷◌, ◌++◌, leb, if◌then◌else◌, length, drop}
use ceasefire.Models.{LogEntry}

abbrev pub max_size : ℕ
max_size = 1000

-- A queue that drops its oldest element when it is full.
unfoldable pub push_capped {ℓ} : {A : Type ℓ} → ℕ → A → List A → List A
push_capped cap x q = (if leb cap (length q) then drop 1 q else q) ++ (x ∷ [])

abbrev pub LogBuffer : Type 0
LogBuffer = List LogEntry

unfoldable pub add : LogEntry → LogBuffer → LogBuffer
add entry buffer = push_capped max_size entry buffer

-- The entries taken, and the buffer left.
unfoldable pub drain : LogBuffer → List LogEntry × LogBuffer
drain buffer = (buffer, [])

unfoldable pub add_all : List LogEntry → LogBuffer → LogBuffer
add_all [] buffer = buffer
add_all (e ∷ es) buffer = add_all es (add e buffer)

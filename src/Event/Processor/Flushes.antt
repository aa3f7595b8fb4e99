-- ===== src/Event/Processor/Flushes.antt =====
-- No log entry is lost between the events and the database.
use ceasefire.Prelude.{
  ℕ, ◌<◌, ◌≡◌, refl, sym, ap, ◌∙◌, Bool, true, false, List, [], ◌∷◌, ◌++◌, Option, none, some, ok,
  leb, if◌then◌else◌, length, Bool-cases, inl, inr, arith, same,
}
use ceasefire.Prelude.State.{Result-cases}
use ceasefire.Text.{Text}
use ceasefire.Models.{event_action_eq, NetworkEvent, NetworkHistoryRecord, LogEntry, EventAction}
use ceasefire.Bandwidth.Kernel.{KernelThrottleSync}
use ceasefire.Bandwidth.Kernel.World.{sync_event_keeps}
use ceasefire.Decisions.{get_decision}
use ceasefire.History.{Baseline, record_closed_connection, add_record}
use ceasefire.Event.{LogBuffer, add, drain, push_capped, max_size}
use ceasefire.Event.Processor.{
  Processor, Calls, Clock, Formats, event_to_log_entry, flush, sync_throttle, look_up, buffered,
  write_history, process_event, event_to_history_record,
}

-- What is relied on: only the batch insert touches the table of the logs, and it appends.
pub record LogTable {W : Type 0} (logs : W → List LogEntry) (calls : Calls W) : Type 0 where
  pub set_throttle_keeps :
      (pid up down : ℕ) (w : W) → logs (((calls.driver).set_throttle pid up down w).1) ≡ logs w
  pub decisions_keep :
      (addr : Text) (port : ℕ) (name : Option Text) (w : W)
      → logs (((calls.decisions).find_connection_decisions addr port name w).1) ≡ logs w
  pub history_keeps :
      (r : NetworkHistoryRecord) (w : W)
      → logs (((calls.history).create_network_history r w).1) ≡ logs w
  pub batch_appends :
      (entries : List LogEntry) (w : W)
      → (calls.add_logs_batch entries w).0 ≡ ok tt
      → logs ((calls.add_logs_batch entries w).1) ≡ logs w ++ entries

append_nil : (l : List LogEntry) → l ++ [] ≡ l
append_nil [] = refl
append_nil (e ∷ l) = ap (λ r. e ∷ r) (append_nil l)

append_assoc : (l m n : List LogEntry) → (l ++ m) ++ n ≡ l ++ (m ++ n)
append_assoc [] m n = refl
append_assoc (e ∷ l) m n = ap (λ r. e ∷ r) (append_assoc l m n)

module _ {W : Type 0} (logs : W → List LogEntry) (calls : Calls W) (f : Formats)
    (p : LogTable logs calls)
    (writes : (entries : List LogEntry) (w : W) → (calls.add_logs_batch entries w).0 ≡ ok tt) where
  sync_throttle_keeps :
      (e : NetworkEvent) (o : Option ℕ) (s : KernelThrottleSync) (w : W)
      → logs ((sync_throttle calls f e o (s, w)).1) ≡ logs w
  unfolding sync_throttle
  sync_throttle_keeps e none s w = refl
  sync_throttle_keeps e (some pid) s w =
      sync_event_keeps calls.driver logs p.set_throttle_keeps f.lower s w pid e.process_path

  look_up_keeps : (c : Clock) (e : NetworkEvent) (w : W) → logs (look_up calls f c e w) ≡ logs w
  unfolding look_up get_decision
  look_up_keeps c e w = elim (Bool-cases (same e.action EventAction.allow)) [
    | inr h ↦ rw h refl
    | inl h ↦
        let kept = p.decisions_keep e.remote_addr e.remote_port e.process_name w in
        elim (Result-cases (
          (((calls.decisions).find_connection_decisions e.remote_addr e.remote_port e.process_name)
            w).0)) [ inl (a, g) ↦ rw (h, g) kept | inr (x, g) ↦ rw (h, g) kept ]
  ]

  closing_keeps :
      (m : Bool) (r : NetworkHistoryRecord) (w : W)
      → logs ((if m then (calls.history).create_network_history r w else (ok tt, w)).1) ≡ logs w
  closing_keeps true r w = p.history_keeps r w
  closing_keeps false r w = refl

  write_history_keeps :
      (c : Clock) (e : NetworkEvent) (b : Baseline) (w : W)
      → logs ((write_history calls f c e b w).1) ≡ logs w
  unfolding write_history record_closed_connection add_record
  write_history_keeps c e b w = elim (Bool-cases (same e.action EventAction.close)) [
    | inl h ↦ rw h (closing_keeps _ _ w)
    | inr h ↦ rw h (p.history_keeps (event_to_history_record c.now e) w)
  ]

  -- What a flush leaves: everything is either in the table or in the buffer, in order.
  buffered_all :
      (buffer : LogBuffer) (w : W)
      → (logs ((buffered calls f buffer w).1) ++ (buffered calls f buffer w).0 ≡ logs w ++ buffer)
        × (length ((buffered calls f buffer w).0) < 100)
  unfolding buffered flush drain
  buffered_all [] w = (refl, omega arith)
  buffered_all (x ∷ xs) w = elim (Bool-cases (leb 100 (length (x ∷ xs)))) [
    | inl h ↦
        let batch = x ∷ xs in
        rw h (
          append_nil (logs ((calls.add_logs_batch batch w).1))
              ∙ p.batch_appends batch w (writes batch w),
          omega arith,
        )
    | inr h ↦ rw h (refl, ground arith)
  ]

  add_last :
      (x : LogEntry) (buffer : LogBuffer) → length buffer < 100 → add x buffer ≡ buffer ++ (x ∷ [])
  unfolding add push_capped
  add_last x buffer few =
      let room : leb max_size (length buffer) ≡ false = ground arith in rw room refl

  process_event_all :
      (c : Clock) (e : NetworkEvent) (s : Processor W)
      → length s.log_buffer < 100
      → let after = process_event calls f c e s in
        (logs after.world ++ after.log_buffer
          ≡ (logs s.world ++ s.log_buffer) ++ (event_to_log_entry c.now e ∷ []))
        × (length after.log_buffer < 100)
  unfolding process_event
  process_event_all c e s few =
      let entry = event_to_log_entry c.now e in
      let w1 : W = (sync_throttle calls f e e.process_id (s.kernel_throttle, s.world)).1 in
      let w2 : W = look_up calls f c e w1 in
      let buffer = add entry s.log_buffer in
      let (held, short) = buffered_all buffer w2 in
      let w3 : W = (buffered calls f buffer w2).1 in
      let before : logs w2 ≡ logs s.world =
        look_up_keeps c e w1 ∙ sync_throttle_keeps e e.process_id s.kernel_throttle s.world in
      (
        ap (λ l. l ++ (buffered calls f buffer w2).0) (write_history_keeps c e s.baseline w3)
            ∙ held
            ∙ ap (λ l. l ++ buffer) before
            ∙ ap (λ l. logs s.world ++ l) (add_last entry s.log_buffer few)
            ∙ sym (append_assoc (logs s.world) s.log_buffer (entry ∷ [])),
        short,
      )

  -- The events of a list, one after the other.
  abbrev pub process_all : List (Clock × NetworkEvent) → Processor W → Processor W
  process_all [] s = s
  process_all ((c, e) ∷ events) s = process_all events (process_event calls f c e s)

  abbrev pub entries_of : List (Clock × NetworkEvent) → List LogEntry
  entries_of [] = []
  entries_of ((c, e) ∷ events) = event_to_log_entry c.now e ∷ entries_of events

  -- From a buffer of fewer than 100 entries, and where the inserts of logs succeed: after any events,
  -- the rows of the logs and the buffer behind them are what they were before with the entry of each
  -- event appended, in order, and the buffer still has fewer than 100. So its own limit of 1000, at
  -- which it drops entries, is never reached.
  pub process_all-entries :
      (events : List (Clock × NetworkEvent)) (s : Processor W)
      → length s.log_buffer < 100
      → let after = process_all events s in
        (logs after.world ++ after.log_buffer ≡ (logs s.world ++ s.log_buffer) ++ entries_of events)
        × (length after.log_buffer < 100)
  process_all-entries [] s few = (sym (append_nil (logs s.world ++ s.log_buffer)), few)
  process_all-entries ((c, e) ∷ events) s few =
      let entry = event_to_log_entry c.now e in
      let (one, short) = process_event_all c e s few in
      let (rest, end) = process_all-entries events (process_event calls f c e s) short in
      (
        rest
            ∙ ap (λ l. l ++ entries_of events) one
            ∙ append_assoc (logs s.world ++ s.log_buffer) (entry ∷ []) (entries_of events),
        end,
      )

-- ===== src/Application/Recording/Outcomes.antt =====
-- Every way in which `execute` returns an event
-- (ledger/src/core/application/use-cases/CreateLedgerEventUseCase.ts).
use ledger_system.Prelude.{
  String, ◌≡◌, ◌⊎◌, inl, inr, refl, sym, ap, ◌∙◌, ok_injective, Bool, true, false, Option, none,
  some, [], ◌∷◌, ◌++◌, ◌==◌, string_eq, find, truthy, Bool-cases, Option-cases, ok, >>=-eq-ok,
  >>-eq-ok, throw_if-eq-ok, arith, ==_refl,
}
use ledger_system.Domain.Hash.{generate_canonical}
use ledger_system.Domain.Entities.{CreateLedgerEventProps, LedgerEvent}
use ledger_system.Domain.Creation.{create, event_of, canonical_form}
use ledger_system.Domain.Creation.Guarantees.{IsSound, create-IsSound}
use ledger_system.Infra.Memory.{Book, save, get_by_command_id, is_text}
use ledger_system.Application.Recording.{
  CreateLedgerEventCommand, Env, Ledger, audit_entry, prepare, record_event, known_event, execute,
}
use ledger_system.Application.Recording.History.{has_id}
use ledger_system.Application.Recording.Prepared.{Prepared, prepare-Prepared}

-- A run that recorded the event `e`: what it checked, what the event is, and what it wrote.
pub record Recorded (env : Env) (c : CreateLedgerEventCommand) (l : Ledger) (e : LedgerEvent)
    (after : Ledger) : Type 0 where
  pub props : CreateLedgerEventProps
  pub prepared : Prepared env c l.book props
  pub sound : IsSound props
  pub event :
      e
      ≡ event_of props env.recorded_at
          (generate_canonical env.sha256 (canonical_form props env.recorded_at))
  pub fresh_id : has_id e.id l.book ≡ false
  pub book : after.book ≡ l.book ++ e ∷ []
  pub audit : after.audit ≡ l.audit ++ audit_entry c e ∷ []

save-eq-ok :
    (e : LedgerEvent) (book : Book) {after : Book}
    → save e book ≡ ok after
    → (has_id e.id book ≡ false) × (after ≡ book ++ e ∷ [])
unfolding save
save-eq-ok e book h =
    let (fresh, made) = >>-eq-ok _ _ h in (throw_if-eq-ok _ _ fresh, sym (ok_injective made))

record_event-Recorded :
    (env : Env) (c : CreateLedgerEventCommand) (l : Ledger) {e : LedgerEvent} {after : Ledger}
    → record_event env c l ≡ ok (e, after)
    → Recorded env c l e after
unfolding record_event
record_event-Recorded env c l {e} {after} h =
    let (props, prepared, h1) = >>=-eq-ok (prepare env c l.book) _ h in
    let (event, created, h2) = >>=-eq-ok (create env.sha256 env.recorded_at props) _ h1 in
    let (book, saved, h3) = >>=-eq-ok (save event l.book) _ h2 in
    let made = ok_injective h3 in
    let same : event ≡ e = ap (λ r. r.0) made in
    let wrote = save-eq-ok e l.book (ap (λ d. save d l.book) (sym same) ∙ saved) in
    let (sound, shape) = create-IsSound env.sha256 env.recorded_at props created in
    record {
      props = props;
      prepared = prepare-Prepared env c l.book prepared;
      sound = sound;
      event = sym same ∙ shape;
      fresh_id = wrote.0;
      book = sym (ap (λ r. r.1.book) made) ∙ wrote.1;
      audit = sym (ap (λ r. r.1.audit) made) ∙ ap (λ d. l.audit ++ audit_entry c d ∷ []) same;
    }

pub execute-Recorded :
    (env : Env) (c : CreateLedgerEventCommand) (l : Ledger) {e : LedgerEvent} {after : Ledger}
    → execute env c l ≡ ok (e, after)
    → ((known_event c.command_id l.book ≡ some e) × (after ≡ l))
      ⊎ ((known_event c.command_id l.book ≡ none) × Recorded env c l e after)
unfolding execute
execute-Recorded env c l h = elim (Option-cases (known_event c.command_id l.book)) [
  | inl unknown ↦ inr (unknown, record_event-Recorded env c l (rw (execute, unknown) at h))
  | inr (d, known) ↦
      let made = ok_injective (rw (execute, known) at h) in
      inl (known ∙ ap (λ r. some r.0) made, sym (ap (λ r. r.1) made))
]

-- A successful run returns either the event that the ledger already has for the command, and then
-- the ledger is left as it is, or a new event, which is appended to the book behind all others and
-- reported to the audit log; nothing on record changes.
pub execute_appends :
    (env : Env) (c : CreateLedgerEventCommand) (l : Ledger) {e : LedgerEvent} {after : Ledger}
    → execute env c l ≡ ok (e, after)
    → ((known_event c.command_id l.book ≡ some e) × (after ≡ l))
      ⊎ ((known_event c.command_id l.book ≡ none)
          × (after.book ≡ l.book ++ e ∷ [])
          × (after.audit ≡ l.audit ++ audit_entry c e ∷ []))
execute_appends env c l h = elim (execute-Recorded env c l h) [
  | inl known ↦ inl known
  | inr (unknown, r) ↦ inr (unknown, r.book, r.audit)
]

find-snoc :
    (p : LedgerEvent → Bool) (book : Book) (e : LedgerEvent)
    → find p book ≡ none
    → p e ≡ true
    → find p (book ++ e ∷ []) ≡ some e
find-snoc p [] e h here = ground arith
find-snoc p (d ∷ book) e h here = ground (arith, find-snoc p book e)

known_event-snoc :
    (command : Option String) (book : Book) (e : LedgerEvent)
    → truthy command ≡ true
    → e.command_id ≡ command
    → known_event command book ≡ none
    → known_event command (book ++ e ∷ []) ≡ some e
unfolding get_by_command_id
known_event-snoc none book e given same h = cc given
known_event-snoc (some id) book e given same h = elim (Bool-cases (id == "")) [
  | inl empty ↦ cc (rw (truthy, empty) at given)
  | inr full ↦
      rw (known_event, full)
        (find-snoc (λ d. is_text d.command_id id) book e (rw (known_event, full) at h)
          (rw same (==_refl id)))
]

-- The event of a command with an identifier is known behind its run.
pub execute_known :
    (env : Env) (c : CreateLedgerEventCommand) (l : Ledger) {e : LedgerEvent} {after : Ledger}
    → truthy c.command_id ≡ true
    → execute env c l ≡ ok (e, after)
    → known_event c.command_id after.book ≡ some e
execute_known env c l {e} given h = elim (execute-Recorded env c l h) [
  | inl (known, same) ↦ rw same known
  | inr (unknown, r) ↦ rw r.book (
      known_event-snoc c.command_id l.book e given
        (ap (λ d. d.command_id) r.event ∙ r.prepared.command) unknown)
]

-- The ledgers that runs of `execute` lead to from a ledger.
pub data Later (l : Ledger) : Ledger → Type 0 where
  now : Later l l
  then_run :
      {mid after : Ledger} {e : LedgerEvent} (env : Env) (c : CreateLedgerEventCommand)
      → Later l mid
      → execute env c mid ≡ ok (e, after)
      → Later l after

find_append :
    (p : LedgerEvent → Bool) (book : Book) (e : LedgerEvent) {d : LedgerEvent}
    → find p book ≡ some d
    → find p (book ++ e ∷ []) ≡ some d
find_append p [] e h = cc h
find_append p (b ∷ book) e h = elim (Bool-cases (p b)) [
  | inl hit ↦ rw hit (rw hit at h)
  | inr miss ↦ rw miss (find_append p book e (rw miss at h))
]

-- What is found by its command stays found, whatever is executed behind it.
pub get_by_command_id-Later :
    (id : String) {l after : Ledger} {d : LedgerEvent}
    → Later l after
    → get_by_command_id id l.book ≡ some d
    → get_by_command_id id after.book ≡ some d
unfolding get_by_command_id
get_by_command_id-Later id now h = h
get_by_command_id-Later id (then_run {mid} {after} {e} env c l ran) h =
    let found = get_by_command_id-Later id l h in
    elim (execute_appends env c mid ran) [
      | inl (known, same) ↦ rw same found
      | inr (unknown, book, audit) ↦
          rw book (find_append (λ x. is_text x.command_id id) mid.book e found)
    ]

known_event-Later :
    (command : Option String) {l after : Ledger} {d : LedgerEvent}
    → Later l after
    → known_event command l.book ≡ some d
    → known_event command after.book ≡ some d
known_event-Later none later h = cc h
known_event-Later (some id) later h = elim (Bool-cases (id == "")) [
  | inl empty ↦ cc (rw (known_event, empty) at h)
  | inr full ↦
      rw (known_event, full) (get_by_command_id-Later id later (rw (known_event, full) at h))
]

-- A command with an identifier that is sent again, after whatever other commands were executed and
-- with whatever environment, returns the event of the first run and leaves the ledger as it is.
pub execute_retry :
    (env again : Env) (c : CreateLedgerEventCommand) (l : Ledger) {e : LedgerEvent}
    {after later : Ledger}
    → truthy c.command_id ≡ true
    → execute env c l ≡ ok (e, after)
    → Later after later
    → execute again c later ≡ ok (e, later)
unfolding execute
execute_retry env again c l given h later =
    rw (execute, known_event-Later c.command_id later (execute_known env c l given h)) refl

-- ===== src/Supervisor/Task.antt =====
-- crates/supervisor/src/task.rs: the record of a task and the outcome that a client is told, and the
-- methods that requests may have. Instants are milliseconds; a solution is what the JSON value has in
-- its field `error`, if that is a string, and the rest of it.
pub mod Worker
pub mod Outcomes
use vpoiskaxroditeley.Prelude.{
  ℕ, ◌+◌, ◌-◌, ◌^◌, Bool, true, false, Option, none, some, List, [], ◌∷◌, ◌==◌, ltb, leb,
  if◌then◌else◌,
}
use vpoiskaxroditeley.Str.{Bytes, eq_bytes, eq_ignore_ascii_case}

abbrev pub st_queued : ℕ
st_queued = 0

abbrev pub st_processing : ℕ
st_processing = 1

abbrev pub st_ready : ℕ
st_ready = 2

abbrev pub st_failed : ℕ
st_failed = 3

pub record Value : Type 0 where
  pub error : Option Bytes
  pub rest : Bytes

pub record TaskRec : Type 0 where
  pub submitted : ℕ
  pub deadline : ℕ
  pub state : ℕ
  pub result : Option Value

pub data Reason : Type 0 where
  expired no_result failed : Reason
  reported : (error : Bytes) → Reason

pub data TaskOutcome : Type 0 where
  processing : (elapsed_ms ttl_left_ms : ℕ) → TaskOutcome
  ready : (solution : Value) → TaskOutcome
  failure : (error : Reason) → TaskOutcome

-- `latest` is the last instant that there is: a time to live that goes past it is none.
unfoldable pub new : ℕ → ℕ → ℕ → TaskRec
new latest now ttl = record {
  submitted = now;
  deadline = if leb (now + ttl) latest then now + ttl else now;
  state = st_queued;
  result = none;
}

unfoldable pub alive : ℕ → TaskRec → Bool
alive now t = ltb now t.deadline

abbrev pub error_of : Option Value → Option Bytes
error_of none = none
error_of (some v) = v.error

unfoldable pub failed_outcome : TaskRec → TaskOutcome
failed_outcome t =
    failure (elim (error_of t.result) [ none ↦ failed | some error ↦ reported error ])

unfoldable pub outcome : ℕ → TaskRec → TaskOutcome
unfolding failed_outcome
outcome now t =
    if t.state == st_queued
    then (if leb t.deadline now
        then failure expired
        else processing (now - t.submitted) (t.deadline - now))
    else if t.state == st_processing
    then (if leb t.deadline now
        then failure expired
        else processing (now - t.submitted) (t.deadline - now))
    else if t.state == st_failed
    then failed_outcome t
    else elim t.result [
      | none ↦ failure no_result
      | some v ↦ if ltb t.deadline now then failure expired else ready v
    ]

-- the bytes of "GET", "PUT", "PATCH" and "POST"
abbrev pub get_method : Bytes
get_method = 71 ∷ 69 ∷ 84 ∷ []

abbrev pub put_method : Bytes
put_method = 80 ∷ 85 ∷ 84 ∷ []

abbrev pub patch_method : Bytes
patch_method = 80 ∷ 65 ∷ 84 ∷ 67 ∷ 72 ∷ []

abbrev pub post_method : Bytes
post_method = 80 ∷ 79 ∷ 83 ∷ 84 ∷ []

unfoldable pub find_method : Bytes → List Bytes → Option Bytes
unfolding eq_ignore_ascii_case
find_method m [] = none
find_method m (x ∷ l) = if eq_ignore_ascii_case m x then some x else find_method m l

unfoldable pub canonical_method : Bytes → Option Bytes
unfolding find_method
canonical_method m = find_method m (get_method ∷ put_method ∷ patch_method ∷ post_method ∷ [])

unfoldable pub canonical_or_get : Bytes → Bytes
unfolding canonical_method
canonical_or_get m = elim (canonical_method m) [ none ↦ get_method | some x ↦ x ]

-- the request that a client makes of a method
pub data Verb : Type 0 where
  get post put patch : Verb

unfoldable pub verb_of : Bytes → Verb
unfolding eq_bytes
verb_of method =
    if eq_bytes method post_method
    then post
    else if eq_bytes method put_method
    then put
    else if eq_bytes method patch_method
    then patch
    else get

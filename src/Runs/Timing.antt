-- ===== src/Runs/Timing.antt =====
-- `_execution_timestamp` and `_require_fresh_job_timing` of scripts/release_control.py. The calendar is the
-- standard library's: `instant` gives the UTC time of an ISO text as a number, or `none` for a ValueError.
pub mod Fresh
use inverter_gateway.Prelude.{
  ℕ, ◌-◌, Bool, true, false, not, Option, none, some, List, [], ◌∷◌, ◌++◌, ◌&&◌, ◌||◌,
  if◌then◌else◌, Text, codes, ◌==◌, leb, all, keep, take, drop, length, is_digit,
}
use inverter_gateway.Prelude.Result.{Result, ok, err, require, ◌>>=◌, ◌>>◌}
use inverter_gateway.Json.{Json, Fields, str, arr, obj, get, to_list}
use inverter_gateway.Json.Texts.{text_is}

-- A text of the shape of a template, whose `d` stands for a digit: what follows it.
unfoldable pub after_shape : Text → Text → Option Text
after_shape [] s = some s
after_shape (t ∷ ts) [] = none
after_shape (t ∷ ts) (c ∷ s) =
    let rest = after_shape ts s in
    if (t == b'd' && is_digit c) || (not (t == b'd') && t == c) then rest else none

abbrev pub is_fraction : Text → Bool
is_fraction [] = true
is_fraction (c ∷ s) = c == b'.' && leb 1 (length s) && leb (length s) 6 && all is_digit s

-- `\d{4}-\d{2}-\d{2}T\d{2}:\d{2}:\d{2}(?:\.\d{1,6})?`
unfoldable pub is_local_time : Text → Bool
is_local_time s = elim (after_shape (codes "dddd-dd-ddTdd:dd:dd") s) [
  | none ↦ false
  | some rest ↦ is_fraction rest
]

-- `[+-](?:[01]\d|2[0-3]):[0-5]\d`
abbrev pub is_offset : Text → Bool
is_offset (s ∷ a ∷ b ∷ colon ∷ c ∷ d ∷ []) =
    (s == b'+' || s == b'-')
    && (((a == b'0' || a == b'1') && is_digit b) || (a == b'2' && leb b'0' b && leb b b'3'))
    && colon == b':'
    && leb b'0' c
    && leb c b'5'
    && is_digit d
is_offset _ = false

unfoldable pub ends_z : Text → Bool
ends_z [] = false
ends_z (c ∷ []) = c == b'Z'
ends_z (c ∷ d ∷ s) = ends_z (d ∷ s)

unfoldable pub dict_items : List Json → Result (List Fields)
dict_items [] = ok []
dict_items (obj fields ∷ js) = do rest ← dict_items js; ok (fields ∷ rest)
dict_items (_ ∷ js) = err "Malformed job execution step"

unfoldable pub step_list : Option Json → Result (List Fields)
step_list (some (arr items)) = do
  require (not (leb (length (to_list items)) 0)) "Successful job lacks execution steps"
  dict_items (to_list items)
step_list _ = err "Successful job lacks execution steps"

abbrev pub is_success : Fields → Bool
is_success step = text_is (get step (codes "conclusion")) (codes "success")

module _ (instant : Text → Option ℕ) where
  abbrev pub parsed_time : Option ℕ → Result ℕ
  parsed_time none = err "Missing or malformed timestamp"
  parsed_time (some t) = ok t

  unfoldable pub text_time : Text → Result ℕ
  text_time text =
      let start = take (length text - 6) text in
      let offset = drop (length text - 6) text in
      if ends_z text
      then (do
        require (is_local_time (take (length text - 1) text)) "Missing or malformed timestamp"
        parsed_time (instant (take (length text - 1) text ++ codes "+00:00")))
      else (do
        require (is_offset offset) "Missing or malformed timestamp"
        require (is_local_time start) "Missing or malformed timestamp"
        parsed_time (instant text))

  -- `_execution_timestamp`
  unfoldable pub execution_timestamp : Option Json → Result ℕ
  execution_timestamp (some (str text)) = text_time text
  execution_timestamp _ = err "Missing or malformed timestamp"

  -- the loop over the successful steps, between the start and the end of the job
  unfoldable pub check_steps : ℕ → ℕ → List Fields → Result (Unit {0})
  check_steps start stop [] = ok tt
  check_steps start stop (step ∷ steps) = do
    require (text_is (get step (codes "status")) (codes "completed"))
        "Successful job has incomplete execution steps"
    step_start ← execution_timestamp (get step (codes "started_at"))
    step_end ← execution_timestamp (get step (codes "completed_at"))
    require (leb start step_start && leb step_start step_end && leb step_end stop)
        "Executed step lies outside the current job interval"
    check_steps start stop steps

  -- `_require_fresh_job_timing`
  unfoldable pub require_fresh_job_timing : Fields → ℕ → Result (Unit {0})
  require_fresh_job_timing job boundary = do
    start ← execution_timestamp (get job (codes "started_at"))
    stop ← execution_timestamp (get job (codes "completed_at"))
    require (leb boundary start && leb start stop)
        "Successful job predates the current release attempt"
    steps ← step_list (get job (codes "steps"))
    require (not (leb (length (keep is_success steps)) 0))
        "Successful job lacks successful execution steps"
    check_steps start stop (keep is_success steps)

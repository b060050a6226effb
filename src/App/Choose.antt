-- ===== src/App/Choose.antt =====
-- web/public/choose-exec.js and web/public/composite-leg2-dispatch.js: the row that the Execute
-- button runs, and how the second leg of a composite is executed.
use decant_fi.Common.{
  Bool, true, false, List, [], Option, none, some, String, str_eq, find, code, ◌==◌, if◌then◌else◌,
}
use decant_fi.Core.Amount.{is_space}

-- A row of the ladder: its source, and the sources of the legs of a composite.
pub record Row : Type 0 where
  pub source_id : String
  pub winner : Bool
  pub executable : Bool
  pub legs : Option (List (Option String))

-- `sourceId.indexOf('+') !== -1`
unfoldable pub has_plus : String → Bool
has_plus String.[] = false
has_plus (String.◌∷◌ letter rest) =
    let more = has_plus rest in if code letter == b'+' then true else more

-- `sourceId.split('+')[0]`
unfoldable pub before_plus : String → String
before_plus String.[] = ""
before_plus (String.◌∷◌ letter rest) =
    let more = before_plus rest in if code letter == b'+' then "" else String.◌∷◌ letter more

-- `.trim()`
unfoldable pub trim_start_text : String → String
trim_start_text String.[] = ""
trim_start_text (String.◌∷◌ letter rest) =
    let more = trim_start_text rest in
    if is_space (code letter) then more else String.◌∷◌ letter rest

unfoldable pub trim_end_text : String → String
trim_end_text String.[] = ""
trim_end_text (String.◌∷◌ letter rest) = elim (trim_end_text rest) [
  | String.[] ↦ if is_space (code letter) then "" else String.◌∷◌ letter String.[]
  | String.◌∷◌ next more ↦ String.◌∷◌ letter (String.◌∷◌ next more)
]

-- `sourceId.split('+')[0].trim()`
unfoldable pub leg_venue : String → String
leg_venue source = trim_end_text (trim_start_text (before_plus source))

pub record Choice : Type 0 where
  pub row : Option Row
  pub sel_row : Option Row
  pub win_row : Option Row
  pub is_composite : Bool

abbrev pub or_row : Option Row → Option Row → Option Row
or_row none b = b
or_row (some a) b = some a

abbrev pub composite_row : Option Row → Bool
composite_row none = false
composite_row (some r) = has_plus r.source_id

-- `simResult` is none, or its ladder. An empty selection is no selection.
abbrev pub ladder_of : Option (List Row) → List Row
ladder_of none = []
ladder_of (some rows) = rows

abbrev pub selected_row : Option String → List Row → Option Row
selected_row none ladder = none
selected_row (some source) ladder =
    if str_eq source "" then none else find (λ (r : Row). str_eq r.source_id source) ladder

unfoldable pub choose_exec : Option String → Option (List Row) → Choice
choose_exec selected sim =
    let ladder = ladder_of sim in
    let win_row = find (λ (r : Row). r.winner) ladder in
    let sel_row = selected_row selected ladder in
    let row = or_row sel_row win_row in
    record { row = row; sel_row = sel_row; win_row = win_row; is_composite = composite_row row }

pub data Dispatch : Type 0 where
  via_broker via_server : Dispatch

-- By the source that the second leg was quoted at.
pub choose_leg2_dispatch : Option String → Dispatch
choose_leg2_dispatch none = via_server
choose_leg2_dispatch (some source) =
    if str_eq source "stellarbroker" then via_broker else via_server

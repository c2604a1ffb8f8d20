-- ===== src/Operator/Status.antt =====
-- components/prophet/schedule/operator/status.go: the states of an operator and the table of
-- the allowed transitions. `OpStatus` is a uint32 and stays a plain number.
use matrixcube.Prelude.{
  ℕ, zero, suc, Bool, true, false, ◌&&◌, List, [], ◌∷◌, String, ltb, leb, get_or, if◌then◌else◌,
}
use matrixcube.Operator.Pdpb.{OperatorStatus}

abbrev pub OpStatus : Type 0
OpStatus = ℕ

abbrev pub created : OpStatus
created = 0

abbrev pub started : OpStatus
started = 1

abbrev pub success : OpStatus
success = 2

abbrev pub canceled : OpStatus
canceled = 3

abbrev pub replaced : OpStatus
replaced = 4

abbrev pub expired : OpStatus
expired = 5

abbrev pub timeout : OpStatus
timeout = 6

abbrev pub status_count : ℕ
status_count = 7

abbrev pub first_end_status : OpStatus
first_end_status = success

-- The row of the table for a source status, by destination. What the literal leaves out is the
-- zero value, false: so are the whole rows of the end statuses.
abbrev pub valid_trans : OpStatus → List Bool
valid_trans zero = false ∷ true ∷ false ∷ true ∷ false ∷ true ∷ false ∷ []
valid_trans (suc zero) = false ∷ false ∷ true ∷ true ∷ true ∷ false ∷ true ∷ []
valid_trans _ = []

-- `validTrans[from][dst]`
unfoldable pub trans_at : OpStatus → OpStatus → Bool
trans_at from dst = get_or (valid_trans from) dst false

unfoldable pub is_end_status : OpStatus → Bool
is_end_status s = leb first_end_status s && ltb s status_count

abbrev pub pdpb_status : List OperatorStatus
pdpb_status =
    OperatorStatus.invalid ∷ OperatorStatus.running ∷ OperatorStatus.success ∷ OperatorStatus.cancel
    ∷ OperatorStatus.replace ∷ OperatorStatus.timeout ∷ OperatorStatus.timeout ∷ []

unfoldable pub op_status_to_pdpb : OpStatus → OperatorStatus
op_status_to_pdpb s =
    if ltb s status_count
    then get_or pdpb_status s OperatorStatus.invalid
    else OperatorStatus.invalid

abbrev pub status_string : List String
status_string =
    "Created" ∷ "Started" ∷ "Success" ∷ "Canceled" ∷ "Replaced" ∷ "Expired" ∷ "Timeout" ∷ []

unfoldable pub op_status_to_string : OpStatus → String
op_status_to_string s = if ltb s status_count then get_or status_string s "Unknown" else "Unknown"

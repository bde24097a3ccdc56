-- ===== src/Audit.antt =====
-- internal/audit/store.go: the audit log. Each method runs under one mutex. Whether the file takes the
-- line that persist writes is an argument; without a file it always does.
pub mod Log
use aegis_router.Base.{
  ℕ, suc, zero, ◌-◌, Bool, true, false, not, ◌&&◌, ◌||◌, nat_eq, List, [], ◌∷◌, ◌++◌, Option, none,
  some, leb, ltb, ◌==◌, length, Result, ok, err, ◌>>=◌, ◌>>◌, reject_if, if◌then◌else◌,
}
use aegis_router.Text.{Bytes, bytes_eq, is_empty}
use aegis_router.Models.{is_given}
use aegis_router.Records.{AuditRecord}

pub data AuditError : Type 0 where
  request_id_required record_not_found write_failed : AuditError

-- Store, the oldest record first
abbrev pub AuditLog : Type 0
AuditLog = List AuditRecord

abbrev pub max_records : ℕ
max_records = 100

unfoldable pub drop : ℕ → AuditLog → AuditLog
drop zero records = records
drop (suc n) [] = []
drop (suc n) (r ∷ records) = drop n records

-- The records that Append keeps in memory
abbrev pub keep_last : AuditLog → AuditLog
keep_last records = drop (length records - max_records) records

-- Append
unfoldable pub append : Bool → AuditRecord → AuditLog → Result AuditError AuditLog
append written record_given log =
    if written then ok (keep_last (log ++ record_given ∷ [])) else err write_failed

-- The loop from the last record to the first, as the search and as the write at its index
unfoldable pub find_latest : Bytes → AuditLog → Option AuditRecord
find_latest id [] = none
find_latest id (r ∷ records) = elim (find_latest id records) [
  | some q ↦ some q
  | none ↦ if r.request_id == id then some r else none
]

unfoldable pub replace_latest : Bytes → AuditRecord → AuditLog → AuditLog
replace_latest id stored [] = []
replace_latest id stored (r ∷ records) =
    let rest = replace_latest id stored records in
    if is_given (find_latest id records)
    then r ∷ rest
    else if r.request_id == id
    then stored ∷ records
    else r ∷ records

-- Update
unfoldable pub update : Bool → AuditRecord → AuditLog → Result AuditError AuditLog
update written changed log = do
  reject_if (is_empty changed.request_id) request_id_required
  elim (find_latest changed.request_id log) [
    | none ↦ err record_not_found
    | some _ ↦
        if written then ok (replace_latest changed.request_id changed log) else err write_failed
  ]

-- Mutate with a change that does not fail: the record and the log
unfoldable pub mutate :
    Bool
    → Bytes
    → (AuditRecord → AuditRecord)
    → AuditLog
    → Result AuditError (AuditRecord × AuditLog)
mutate written id change log = do
  reject_if (is_empty id) request_id_required
  elim (find_latest id log) [
    | none ↦ err record_not_found
    | some r ↦ if written then ok (change r, replace_latest id (change r) log) else err write_failed
  ]

-- Get
abbrev pub get_record : Bytes → AuditLog → Option AuditRecord
get_record id log = find_latest id log

unfoldable pub newest_first : AuditLog → AuditLog
newest_first [] = []
newest_first (r ∷ records) = newest_first records ++ r ∷ []

unfoldable pub take : ℕ → AuditLog → AuditLog
take zero records = []
take (suc n) [] = []
take (suc n) (r ∷ records) = r ∷ take n records

-- Recent for a limit that is not negative
unfoldable pub recent : ℕ → AuditLog → AuditLog
recent limit log =
    let held = length log in
    take (if limit == 0 || ltb held limit then held else limit) (newest_first log)

-- The loop of load over the parsed lines of the file
unfoldable pub load_lines : List AuditRecord → AuditLog → AuditLog
load_lines [] log = log
load_lines (line ∷ lines) log = load_lines lines (
    if not (is_empty line.request_id) && is_given (find_latest line.request_id log)
    then replace_latest line.request_id line log
    else log ++ line ∷ [])

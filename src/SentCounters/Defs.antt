-- ===== src/SentCounters/Defs.antt =====
-- srv6_mrc/mrc/sent_counters.py: `SentCounterWriter` and `SentCounterReader`. The file system's answers
-- are arguments.
use srv6_mrc_emulator.Common.{
  ℕ, ◌+◌, ◌-◌, Bool, true, false, ◌&&◌, List, [], ◌∷◌, map, Option, none, some, ltb, leb, ◌==◌,
  if◌then◌else◌, length, range, Grid, set_cell, value_error, Result, ok, guard, ◌>>◌,
}

abbrev pub Rows : Type 0
Rows = List (List ℕ)

pub record SentCounterWriter : Type 0 where
  pub num_planes : ℕ
  pub num_paths : ℕ
  pub sent : Grid ℕ
  pub publish_errors : ℕ

unfoldable pub new_writer : ℕ → ℕ → ℕ → Result SentCounterWriter
new_writer num_planes num_paths publish_interval_ms = do
  guard (ltb 0 publish_interval_ms) value_error
  ok (record {
    num_planes = num_planes;
    num_paths = num_paths;
    sent = λ plane path. 0;
    publish_errors = 0;
  })

unfoldable pub record_sent : SentCounterWriter → ℕ → ℕ → SentCounterWriter
record_sent w plane path =
    if ltb plane w.num_planes && ltb path w.num_paths
    then record w { sent = set_cell w.sent plane path (w.sent plane path + 1) }
    else w

-- The file's content: its list of rows, or none if it is no object with one.
unfoldable pub rows_of : SentCounterWriter → Rows
rows_of w = map (λ plane. map (λ path. w.sent plane path) (range w.num_paths)) (range w.num_planes)

-- `publish`, whose writing succeeds or fails; a failed one leaves the old file.
unfoldable pub publish : SentCounterWriter → Bool → Option Rows → SentCounterWriter × Option Rows
publish w true file = (w, some (rows_of w))
publish w false file = (record w { publish_errors = w.publish_errors + 1 }, file)

-- What opening and parsing the file gives: no file, an error, or its "sent" value if that is a list
-- of lists.
pub data Reading : Type 0 where
  missing unreadable : Reading
  content : Option Rows → Reading

pub record SentCounterReader : Type 0 where
  pub num_planes : ℕ
  pub num_paths : ℕ
  pub last : Option Rows
  pub read_errors : ℕ

abbrev pub new_reader : ℕ → ℕ → SentCounterReader
new_reader num_planes num_paths = record {
  num_planes = num_planes;
  num_paths = num_paths;
  last = none;
  read_errors = 0;
}

abbrev pub rows_fit : ℕ → Rows → Bool
rows_fit num_paths [] = true
rows_fit num_paths (row ∷ rows) = length row == num_paths && rows_fit num_paths rows

abbrev pub read_error : SentCounterReader → Option Rows × SentCounterReader
read_error r = (none, record r { read_errors = r.read_errors + 1 })

-- `_read`
unfoldable pub read : SentCounterReader → Reading → Option Rows × SentCounterReader
read r missing = (none, r)
read r unreadable = read_error r
read r (content none) = read_error r
read r (content (some rows)) =
    if length rows == r.num_planes && rows_fit r.num_paths rows
    then (some rows, r)
    else read_error r

-- A count that went backwards is that of a sender that started anew.
abbrev pub cell_delta : ℕ → ℕ → ℕ
cell_delta c l = if leb l c then c - l else c

unfoldable pub row_delta : List ℕ → List ℕ → List ℕ
row_delta (c ∷ cs) (l ∷ ls) = cell_delta c l ∷ row_delta cs ls
row_delta _ _ = []

unfoldable pub delta : Rows → Rows → Rows
delta (c ∷ cs) (l ∷ ls) = row_delta c l ∷ delta cs ls
delta _ _ = []

abbrev pub since : Rows → Option Rows → Rows
since current none = current
since current (some last) = delta current last

abbrev pub finish_read : Option Rows × SentCounterReader → Option Rows × SentCounterReader
finish_read (none, r) = (none, r)
finish_read (some current, r) = (some (since current r.last), record r { last = some current })

unfoldable pub read_delta : SentCounterReader → Reading → Option Rows × SentCounterReader
read_delta r reading = finish_read (read r reading)

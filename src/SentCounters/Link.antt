-- ===== src/SentCounters/Link.antt =====
-- srv6_mrc/mrc/sent_counters.py: the sender and the daemon with the file between them, by steps.
use srv6_mrc_emulator.Common.{
  ℕ, suc, Bool, true, false, List, [], ◌∷◌, Option, none, some, if◌then◌else◌, sum_by, same_cell,
}
use srv6_mrc_emulator.SentCounters.Defs.{
  Rows, SentCounterWriter, record_sent, publish, Reading, missing, unreadable, content,
  SentCounterReader, new_reader, read_delta,
}
use srv6_mrc_emulator.SentCounters.Cells.{cell}

-- The sender and the daemon with the file between them, and the deltas that the daemon has read.
pub record Link : Type 0 where
  pub writer : SentCounterWriter
  pub file : Option Rows
  pub reader : SentCounterReader
  pub deltas : List Rows

-- A packet on an EV; a publish and a read, which succeed or fail.
pub data Step : Type 0 where
  packet_step : ℕ → ℕ → Step
  publish_step read_step : Bool → Step

-- What the file system answers to a read that succeeds or fails.
abbrev pub reading_of : Bool → Option Rows → Reading
reading_of false file = unreadable
reading_of true none = missing
reading_of true (some rows) = content (some rows)

abbrev pub keep_delta : Option Rows → List Rows → List Rows
keep_delta none ds = ds
keep_delta (some d) ds = d ∷ ds

unfoldable pub take_step : Link → Step → Link
take_step s (packet_step p q) = record s { writer = record_sent s.writer p q }
take_step s (publish_step works) = record s {
  writer = (publish s.writer works s.file).0;
  file = (publish s.writer works s.file).1;
}
take_step s (read_step works) =
    let (d, r) = read_delta s.reader (reading_of works s.file) in
    record s { reader = r; deltas = keep_delta d s.deltas }

unfoldable pub take_steps : Link → List Step → Link
take_steps s [] = s
take_steps s (e ∷ es) = take_steps (take_step s e) es

abbrev pub new_link : ℕ → ℕ → Link
new_link n m = record {
  writer = record { num_planes = n; num_paths = m; sent = λ plane path. 0; publish_errors = 0 };
  file = none;
  reader = new_reader n m;
  deltas = [];
}

abbrev pub read_in_all : ℕ → ℕ → List Rows → ℕ
read_in_all p q ds = sum_by (λ d. cell p q d) ds

abbrev pub packets_on : ℕ → ℕ → List Step → ℕ
packets_on p q [] = 0
packets_on p q (packet_step i j ∷ es) =
    if same_cell p q i j then suc (packets_on p q es) else packets_on p q es
packets_on p q (publish_step works ∷ es) = packets_on p q es
packets_on p q (read_step works ∷ es) = packets_on p q es

-- ===== src/SentCounters/Linked.antt =====
-- srv6_mrc/mrc/sent_counters.py: what the sender, the file and the daemon keep to one another.
use srv6_mrc_emulator.Common.{
  ℕ, suc, ◌+◌, ◌≤◌, ◌<◌, ◌≡◌, ◌∙◌, ap, refl, Bool, true, false, Option, none, some, ◌==◌,
  if◌then◌else◌, arith, length, same_cell, same_cell→eq,
}
use srv6_mrc_emulator.SentCounters.Defs.{
  Rows, record_sent, publish, missing, unreadable, content, SentCounterReader, rows_fit, read,
  read_error, since, finish_read, read_delta,
}
use srv6_mrc_emulator.SentCounters.Cells.{
  cell, cell_or_zero, cell-delta, cell-rows_of, Fits, rows_of-Fits,
}
use srv6_mrc_emulator.SentCounters.Link.{
  Link, packet_step, publish_step, read_step, take_step, read_in_all,
}

abbrev pub FitsIfAny : ℕ → ℕ → Option Rows → Type 0
FitsIfAny n m none = Unit {0}
FitsIfAny n m (some rows) = Fits n m rows

-- What the daemon read adds up to the rows it read last, which the file and the writer never fall behind.
pub record IsLinked (n m p q k : ℕ) (s : Link) : Type 0 where
  pub planes : s.writer.num_planes ≡ n
  pub paths : s.writer.num_paths ≡ m
  pub reader_planes : s.reader.num_planes ≡ n
  pub reader_paths : s.reader.num_paths ≡ m
  pub file_fits : FitsIfAny n m s.file
  pub last_fits : FitsIfAny n m s.reader.last
  pub added_up : read_in_all p q s.deltas ≡ cell_or_zero p q s.reader.last
  pub behind_file : cell_or_zero p q s.reader.last ≤ cell_or_zero p q s.file
  pub behind_writer : cell_or_zero p q s.file ≤ k
  pub counted : s.writer.sent p q ≡ k

read_delta-unreadable : (r : SentCounterReader) → read_delta r unreadable ≡ read_error r
unfolding read_delta read
read_delta-unreadable r = refl

read_delta-missing : (r : SentCounterReader) → read_delta r missing ≡ (none, r)
unfolding read_delta read
read_delta-missing r = refl

module _ (n m p q : ℕ) (hp : p < n) (hq : q < m) where
  pub packet-IsLinked :
      (k : ℕ) (s : Link) (i j : ℕ)
      → IsLinked n m p q k s
      → IsLinked n m p q (if same_cell p q i j then suc k else k) (take_step s (packet_step i j))
  unfolding take_step record_sent
  packet-IsLinked k s i j h = ground (arith, same_cell→eq p q i j)

  pub publish-IsLinked :
      (k : ℕ) (s : Link) (works : Bool)
      → IsLinked n m p q k s
      → IsLinked n m p q k (take_step s (publish_step works))
  unfolding take_step publish
  publish-IsLinked k s false h = ground (arith, h)
  publish-IsLinked k s true h =
      let value =
        cell-rows_of s.writer p q (omega (arith, hp, h.planes)) (omega (arith, hq, h.paths)) in
      let shape = rows_of-Fits s.writer in
      record {
        planes = h.planes;
        paths = h.paths;
        reader_planes = h.reader_planes;
        reader_paths = h.reader_paths;
        file_fits = record { planes = shape.planes ∙ h.planes; paths = rw (← h.paths) shape.paths };
        last_fits = h.last_fits;
        added_up = h.added_up;
        behind_file = omega (arith, h.behind_file, h.behind_writer, h.counted, value);
        behind_writer = omega (arith, value, h.counted);
        counted = h.counted;
      }

  -- A read of rows that fit: what it adds is what the rows have more than the last ones.
  since-cell :
      (rows : Rows) (last : Option Rows)
      → Fits n m rows
      → FitsIfAny n m last
      → cell_or_zero p q last ≤ cell p q rows
      → cell p q (since rows last) + cell_or_zero p q last ≡ cell p q rows
  since-cell rows none new old le = omega arith
  since-cell rows (some last) new old le =
      let e =
        cell-delta m p q rows last (omega (arith, hp, new.planes)) (omega (arith, hp, old.planes))
          hq new.paths old.paths in
      ground (arith, e, le)

  read-Fits :
      (r : SentCounterReader) (rows : Rows)
      → r.num_planes ≡ n
      → r.num_paths ≡ m
      → Fits n m rows
      → read r (content (some rows)) ≡ (some rows, r)
  unfolding read
  read-Fits r rows hn hm fits =
      let same : (length rows == r.num_planes) ≡ true = ground (arith, fits.planes) in
      let all : rows_fit r.num_paths rows ≡ true = rw hm fits.paths in rw (same, all)

  pub read_delta-Fits :
      (r : SentCounterReader) (rows : Rows)
      → r.num_planes ≡ n
      → r.num_paths ≡ m
      → Fits n m rows
      → read_delta r (content (some rows))
        ≡ (some (since rows r.last), record r { last = some rows })
  unfolding read_delta
  read_delta-Fits r rows hn hm fits = ap finish_read (read-Fits r rows hn hm fits)

  pub read-IsLinked :
      (k : ℕ) (s : Link) (works : Bool)
      → IsLinked n m p q k s
      → IsLinked n m p q k (take_step s (read_step works))
  unfolding take_step
  read-IsLinked k s works h = by_file s.file h.file_fits h.behind_file h.behind_writer works
    where
      by_file :
          (file : Option Rows)
          → FitsIfAny n m file
          → cell_or_zero p q s.reader.last ≤ cell_or_zero p q file
          → cell_or_zero p q file ≤ k
          → (works : Bool)
          → IsLinked n m p q k (take_step (record s { file = file }) (read_step works))
      by_file file fits ahead behind false = rw (read_delta-unreadable s.reader) record {
        planes = h.planes;
        paths = h.paths;
        reader_planes = h.reader_planes;
        reader_paths = h.reader_paths;
        file_fits = fits;
        last_fits = h.last_fits;
        added_up = h.added_up;
        behind_file = ahead;
        behind_writer = behind;
        counted = h.counted;
      }
      by_file none fits ahead behind true = rw (read_delta-missing s.reader) record {
        planes = h.planes;
        paths = h.paths;
        reader_planes = h.reader_planes;
        reader_paths = h.reader_paths;
        file_fits = fits;
        last_fits = h.last_fits;
        added_up = h.added_up;
        behind_file = ahead;
        behind_writer = behind;
        counted = h.counted;
      }
      by_file (some rows) fits ahead behind true =
          let e = since-cell rows s.reader.last fits h.last_fits ahead in
          rw (read_delta-Fits s.reader rows h.reader_planes h.reader_paths fits) record {
            planes = h.planes;
            paths = h.paths;
            reader_planes = h.reader_planes;
            reader_paths = h.reader_paths;
            file_fits = fits;
            last_fits = fits;
            added_up = omega (arith, e, h.added_up);
            behind_file = omega arith;
            behind_writer = behind;
            counted = h.counted;
          }

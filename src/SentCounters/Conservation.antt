-- ===== src/SentCounters/Conservation.antt =====
-- srv6_mrc/mrc/sent_counters.py: what the daemon reads against the packets that the sender recorded.
use srv6_mrc_emulator.Common.{
  ℕ, suc, ◌+◌, ◌≤◌, ◌<◌, ◌≡◌, ◌∙◌, ap, refl, Bool, true, false, List, [], ◌∷◌, ◌++◌, Option,
  if◌then◌else◌, arith, same_cell,
}
use srv6_mrc_emulator.SentCounters.Defs.{Rows, rows_of, publish, SentCounterReader}
use srv6_mrc_emulator.SentCounters.Cells.{cell_or_zero, cell-rows_of, Fits, rows_of-Fits}
use srv6_mrc_emulator.SentCounters.Link.{
  Link, Step, packet_step, publish_step, read_step, take_step, take_steps, new_link, read_in_all,
  packets_on,
}
use srv6_mrc_emulator.SentCounters.Linked.{
  IsLinked, packet-IsLinked, publish-IsLinked, read-IsLinked, read_delta-Fits,
}

module _ (n m p q : ℕ) (hp : p < n) (hq : q < m) where
  new_link-IsLinked : IsLinked n m p q 0 (new_link n m)
  new_link-IsLinked = record {
    planes = refl;
    paths = refl;
    reader_planes = refl;
    reader_paths = refl;
    file_fits = tt;
    last_fits = tt;
    added_up = refl;
    behind_file = omega arith;
    behind_writer = omega arith;
    counted = refl;
  }

  take_steps-IsLinked :
      (k : ℕ) (s : Link) (es : List Step)
      → IsLinked n m p q k s
      → IsLinked n m p q (packets_on p q es + k) (take_steps s es)
  unfolding take_steps
  take_steps-IsLinked k s [] h = let none_more : 0 + k ≡ k = omega arith in rw none_more h
  take_steps-IsLinked k s (packet_step i j ∷ es) h =
      let next =
        take_steps-IsLinked (if same_cell p q i j then suc k else k) (take_step s (packet_step i j))
          es (packet-IsLinked n m p q hp hq k s i j h) in
      rw (shift_hit (same_cell p q i j)) next
    where
      shift_hit :
          (hit : Bool)
          → (if hit then suc (packets_on p q es) else packets_on p q es) + k
            ≡ packets_on p q es + (if hit then suc k else k)
      shift_hit true = omega arith
      shift_hit false = refl
  take_steps-IsLinked k s (publish_step works ∷ es) h =
      take_steps-IsLinked k (take_step s (publish_step works)) es
        (publish-IsLinked n m p q hp hq k s works h)
  take_steps-IsLinked k s (read_step works ∷ es) h =
      take_steps-IsLinked k (take_step s (read_step works)) es
        (read-IsLinked n m p q hp hq k s works h)

  read_delta-last :
      (k : ℕ) (s : Link)
      → IsLinked n m p q k s
      → cell_or_zero p q (take_step (take_step s (publish_step true)) (read_step true)).reader.last
        ≡ k
  unfolding take_step publish
  read_delta-last k s h =
      let shape = rows_of-Fits s.writer in
      let fits : Fits n m (rows_of s.writer) = record {
        planes = shape.planes ∙ h.planes;
        paths = rw (← h.paths) shape.paths;
      } in
      let value =
        cell-rows_of s.writer p q (omega (arith, hp, h.planes)) (omega (arith, hq, h.paths)) in
      ap (λ (o : Option Rows × SentCounterReader). cell_or_zero p q o.1.last)
        (read_delta-Fits n m p q hp hq s.reader (rows_of s.writer) h.reader_planes h.reader_paths
          fits)
      ∙ value
      ∙ h.counted

take_steps-append :
    (s : Link) (es fs : List Step) → take_steps s (es ++ fs) ≡ take_steps (take_steps s es) fs
unfolding take_steps
take_steps-append s [] fs = refl
take_steps-append s (e ∷ es) fs = take_steps-append (take_step s e) es fs

-- What the daemon reads neither loses a packet nor counts it twice: start with a new sender, a new
-- reader and no file, and take any steps, each a packet that the sender records on an EV, a publish or
-- a read, the last two working or failing. On each EV of the table, the deltas read so far add up to no
-- more than the packets sent on it; and after one more publish and one more read that work, they add up
-- to exactly these packets.
pub take_steps-read_in_all :
    (n m p q : ℕ) (es : List Step)
    → p < n
    → q < m
    → (read_in_all p q (take_steps (new_link n m) es).deltas ≤ packets_on p q es)
      × (read_in_all p q
            (take_steps (new_link n m) (es ++ (publish_step true ∷ read_step true ∷ []))).deltas
          ≡ packets_on p q es)
unfolding take_steps
take_steps-read_in_all n m p q es hp hq =
    let s = take_steps (new_link n m) es in
    let h =
      take_steps-IsLinked n m p q hp hq 0 (new_link n m) es (new_link-IsLinked n m p q hp hq) in
    let k = packets_on p q es + 0 in
    let published = publish-IsLinked n m p q hp hq k s true h in
    let after = read-IsLinked n m p q hp hq k (take_step s (publish_step true)) true published in
    let last = read_delta-last n m p q hp hq k s h in
    let end = take_steps-append (new_link n m) es (publish_step true ∷ read_step true ∷ []) in
    (
      omega (arith, h.added_up, h.behind_file, h.behind_writer),
      ap (λ (t : Link). read_in_all p q t.deltas) end ∙ after.added_up ∙ last ∙ omega arith,
    )

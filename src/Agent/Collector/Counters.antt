-- ===== src/Agent/Collector/Counters.antt =====
-- pulse-agent/src/collector.rs: the rates of the network interfaces and of the disks.
use hakuraku.Prelude.{
  ℕ, ◌+◌, ◌-◌, ◌*◌, ◌||◌, Bool, List, [], ◌∷◌, Option, none, some, Text, codes, text_eq, length,
  drop, get_elem?, lookup, insert, Result, ok, err, trim, split_whitespace, starts_with, parse_u64,
  ltb, ◌==◌, if◌then◌else◌,
}
use hakuraku.Core.Float.{Float}
use hakuraku.Core.Error.{CollectorError}
use hakuraku.Core.Proto.{NetworkInterface}
use hakuraku.Agent.Collector.{
  NetCounters, DiskCounters, SystemCollector, Kernel, read_file, lines, wrap, number_or, text_or,
  Collecting,
}

-- `split_once(':')`.
unfoldable pub split_colon : Text → Option (Text × Text)
split_colon [] = none
split_colon (c ∷ s) =
    let rest = split_colon s in
    if c == b':'
    then some ([], s)
    else elim rest [ none ↦ none | some (front, back) ↦ some (c ∷ front, back) ]

-- The words that are numbers.
abbrev with_number : Option ℕ → List ℕ → List ℕ
with_number none ns = ns
with_number (some n) ns = n ∷ ns

abbrev pub numbers_of : List Text → List ℕ
numbers_of [] = []
numbers_of (w ∷ ws) = with_number (parse_u64 w) (numbers_of ws)

-- The name and the fields of a line that counts.
abbrev pub counted : Text → List ℕ → Option (Text × List ℕ)
counted name fields =
    if text_eq name (codes "lo")
    then none
    else if ltb (length fields) 10
    then none
    else some (name, fields)

abbrev pub interface_pieces : Option (Text × Text) → Option (Text × List ℕ)
interface_pieces none = none
interface_pieces (some (name, rest)) = counted (trim name) (numbers_of (split_whitespace rest))

unfoldable pub parse_net_line : Text → Option (Text × List ℕ)
parse_net_line line =
    if text_eq (trim line) [] then none else interface_pieces (split_colon (trim line))

-- An index that the length of the list allows.
abbrev pub at : List ℕ → ℕ → ℕ
at ns i = number_or 0 (get_elem? ns i)

abbrev pub word : List Text → ℕ → Text
word ws i = text_or [] (get_elem? ws i)

abbrev pub count_net : SystemCollector → Text → ℕ → ℕ → SystemCollector
count_net c name rx tx = record c {
  prev_net = insert name (record { rx_bytes = rx; tx_bytes = tx }) c.prev_net;
}

abbrev pub is_skipped : List Text → Bool
is_skipped fields =
    ltb (length fields) 14
    || starts_with (codes "loop") (word fields 2)
    || starts_with (codes "ram") (word fields 2)

-- The sectors read and written, added up.
unfoldable pub sectors : DiskCounters → List Text → DiskCounters
sectors sum [] = sum
sectors sum (l ∷ ls) =
    let fields = split_whitespace l in
    let more : DiskCounters = record {
      read_sectors = wrap (sum.read_sectors + number_or 0 (parse_u64 (word fields 5)));
      write_sectors = wrap (sum.write_sectors + number_or 0 (parse_u64 (word fields 9)));
    } in
    sectors (if is_skipped fields then sum else more) ls

module _ {F : Type 0} (f : Float F) where
  -- `(delta as f64 / elapsed_secs) as u64`.
  abbrev pub rate : ℕ → F → ℕ
  rate delta elapsed = f.to_u64 (f.div (f.of_u64 delta) elapsed)

  abbrev pub net_rates : Option NetCounters → ℕ → ℕ → F → ℕ × ℕ
  net_rates none rx tx elapsed = (0, 0)
  net_rates (some prev) rx tx elapsed =
      (rate (rx - prev.rx_bytes) elapsed, rate (tx - prev.tx_bytes) elapsed)

  abbrev pub interface : SystemCollector → F → Text → ℕ → ℕ → NetworkInterface
  interface c elapsed name rx tx =
      let rates = net_rates (lookup name c.prev_net) rx tx elapsed in
      record {
        name = name;
        rx_bytes_sec = rates.0;
        tx_bytes_sec = rates.1;
        rx_bytes_total = rx;
        tx_bytes_total = tx;
      }

  unfoldable pub net_lines :
      F → SystemCollector → List Text → SystemCollector × List NetworkInterface
  net_lines elapsed c [] = (c, [])
  net_lines elapsed c (l ∷ ls) = elim (parse_net_line l) [
    | none ↦ net_lines elapsed c ls
    | some (name, fields) ↦
        let (c', rest) = net_lines elapsed (count_net c name (at fields 0) (at fields 8)) ls in
        (c', interface c elapsed name (at fields 0) (at fields 8) ∷ rest)
  ]

  abbrev pub net_text :
      F → SystemCollector → Result CollectorError Text → Collecting (List NetworkInterface)
  net_text elapsed c (err e) = (c, err e)
  net_text elapsed c (ok text) =
      let (c', interfaces) = net_lines elapsed c (drop 2 (lines text)) in (c', ok interfaces)

  unfoldable pub read_net_dev : Kernel → F → SystemCollector → Collecting (List NetworkInterface)
  read_net_dev k elapsed c = net_text elapsed c (read_file k (codes "/proc/net/dev"))

  abbrev pub disk_rates : Option DiskCounters → DiskCounters → F → ℕ × ℕ
  disk_rates none now elapsed = (0, 0)
  disk_rates (some prev) now elapsed = (
    rate (wrap ((now.read_sectors - prev.read_sectors) * 512)) elapsed,
    rate (wrap ((now.write_sectors - prev.write_sectors) * 512)) elapsed,
  )

  abbrev pub disk_text : F → SystemCollector → Result CollectorError Text → Collecting (ℕ × ℕ)
  disk_text elapsed c (err e) = (c, err e)
  disk_text elapsed c (ok text) =
      let now = sectors (record { read_sectors = 0; write_sectors = 0 }) (lines text) in
      (record c { prev_disk = some now }, ok (disk_rates c.prev_disk now elapsed))

  unfoldable pub read_diskstats : Kernel → F → SystemCollector → Collecting (ℕ × ℕ)
  read_diskstats k elapsed c = disk_text elapsed c (read_file k (codes "/proc/diskstats"))

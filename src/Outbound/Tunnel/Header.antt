-- ===== src/Outbound/Tunnel/Header.antt =====
-- What readConnectHeader takes from the connection.
use airjail.Base.{
  ℕ, ◌+◌, ◌≤◌, true, false, List, [], ◌∷◌, ◌++◌, ◌≡◌, ◌≢◌, refl, ◌∙◌, inl, inr, arith, ok, leb,
  length, length-append, Bool-cases, map,
}
use airjail.Base.Bytes.{Bytes, has_suffix}
use airjail.Outbound.Tunnel.{
  Read, byte, nothing, failed, read_from, read_connect_header, header_end, max_connect_header_size,
}

-- the bytes that a reader delivers
abbrev pub bytes_of : List Read → Bytes
bytes_of [] = []
bytes_of (failed ∷ rest) = bytes_of rest
bytes_of (nothing ∷ rest) = bytes_of rest
bytes_of (byte c ∷ rest) = c ∷ bytes_of rest

-- no end of a header stands behind `header` and a nonempty part of the text before its last byte
abbrev pub EndsOnce : Bytes → Bytes → Type 0
EndsOnce header [] = Unit
EndsOnce header (c ∷ []) = has_suffix (header ++ c ∷ []) header_end ≡ true
EndsOnce header (c ∷ d ∷ s) =
    (has_suffix (header ++ c ∷ []) header_end ≡ false) × EndsOnce (header ++ c ∷ []) (d ∷ s)

EndsOnce-more :
    (header : Bytes) (c : ℕ) (s : Bytes)
    → has_suffix (header ++ c ∷ []) header_end ≡ false
    → s ≢ []
    → EndsOnce (header ++ c ∷ []) s
    → EndsOnce header (c ∷ s)
EndsOnce-more header c [] e some_left ends = absurd (some_left refl)
EndsOnce-more header c (d ∷ s) e some_left ends = (e, ends)

-- the text that the loop adds to `header`
record Reads (reads : List Read) (header taken : Bytes) (rest : List Read) (s : Bytes)
    : Type 0 where
  added : taken ≡ header ++ s
  some_added : s ≢ []
  delivered : bytes_of reads ≡ s ++ bytes_of rest
  bounded : length taken ≤ max_connect_header_size
  ends : EndsOnce header s

ended_length : (h : Bytes) → has_suffix h header_end ≡ true → leb 4 (length h) ≡ true
unfolding has_suffix
ended_length h ended = ground arith

append-snoc : (header : Bytes) (c : ℕ) (s : Bytes) → (header ++ c ∷ []) ++ s ≡ header ++ c ∷ s
append-snoc [] c s = refl
append-snoc (x ∷ header) c s = rw (append-snoc header c s)

read_from_sound :
    (reads : List Read) (header taken : Bytes) (rest : List Read)
    → read_from reads header ≡ ok (taken, rest)
    → (s : Bytes) × Reads reads header taken rest s
unfolding read_from
read_from_sound [] header taken rest h = absurd (ground arith)
read_from_sound (failed ∷ reads) header taken rest h = absurd (ground arith)
read_from_sound (nothing ∷ reads) header taken rest h =
    let (s, r) = read_from_sound reads header taken rest (ground arith) in
    (
      s,
      record {
        added = r.added;
        some_added = r.some_added;
        delivered = r.delivered;
        bounded = r.bounded;
        ends = r.ends;
      },
    )
read_from_sound (byte c ∷ reads) header taken rest h =
    let longer = header ++ c ∷ [] in
    elim (Bool-cases (has_suffix longer header_end)) [
      | inl ended ↦ (
        c ∷ [],
        record {
          added = ground (arith, ended, ended_length longer ended);
          some_added = λ e. cc;
          delivered = ground (arith, ended, ended_length longer ended);
          bounded = ground (arith, ended, ended_length longer ended, length-append header (c ∷ []));
          ends = ended;
        },
      )
      | inr unended ↦
          let (s, r) = read_from_sound reads longer taken rest (ground (arith, unended)) in
          (
            c ∷ s,
            record {
              added = r.added ∙ append-snoc header c s;
              some_added = λ e. cc;
              delivered = rw r.delivered;
              bounded = r.bounded;
              ends = EndsOnce-more header c s unended r.some_added r.ends;
            },
          )
    ]

-- What readConnectHeader returns is what the connection delivers up to its first empty line, in at
-- most 16 KiB; every byte behind that line is left on the connection.
pub read_connect_header_sound :
    (reads : List Read) (header : Bytes) (rest : List Read)
    → read_connect_header reads ≡ ok (header, rest)
    → (bytes_of reads ≡ header ++ bytes_of rest)
      × EndsOnce [] header
      × (length header ≤ max_connect_header_size)
unfolding read_connect_header
read_connect_header_sound reads header rest h =
    let (s, r) = read_from_sound reads [] header rest h in
    (rw r.added r.delivered, rw r.added r.ends, r.bounded)

read_from_complete :
    (s header : Bytes) (rest : List Read)
    → s ≢ []
    → EndsOnce header s
    → length header + length s ≤ max_connect_header_size
    → read_from (map byte s ++ rest) header ≡ ok (header ++ s, rest)
unfolding read_from
read_from_complete [] header rest some_left ends fits = absurd (some_left refl)
read_from_complete (c ∷ []) header rest some_left ends fits =
    ground (arith, ends, ended_length (header ++ c ∷ []) ends)
read_from_complete (c ∷ d ∷ s) header rest some_left ends fits = ground (
  arith,
  ends.0,
  read_from_complete (d ∷ s) (header ++ c ∷ []) rest (λ e. cc) ends.1,
  length-append header (c ∷ []),
  append-snoc header c (d ∷ s),
)

-- A header of at most 16 KiB is read to its end and no further, whatever the connection delivers
-- behind it.
pub read_connect_header_complete :
    (header : Bytes) (rest : List Read)
    → header ≢ []
    → EndsOnce [] header
    → length header ≤ max_connect_header_size
    → read_connect_header (map byte header ++ rest) ≡ ok (header, rest)
unfolding read_connect_header
read_connect_header_complete header rest filled ends fits =
    read_from_complete header [] rest filled ends (omega arith)

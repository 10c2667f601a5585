-- ===== src/Ata/Detect.antt =====
-- What `ata_detect_drives` of kernel/ata.c leaves in its table.
use szym_os_kernel.Prelude.{
  ℕ, zero, suc, ◌+◌, ◌/◌, ◌≤◌, ◌<◌, ◌≡◌, refl, ◌∙◌, ◌⊎◌, inl, inr, true, false, Bool-cases, some,
  List, [], ◌∷◌, ◌++◌, arith, ℤ, pos, ◌==◌, bind_some, u8, u16, shl, bit_or, length, get_elem?,
  get_or, set, length-set, length-append, get_elem?-set_self, get_elem?-set_ne, get_elem?-IsSome,
}
use szym_os_kernel.Ports.{Ports}
use szym_os_kernel.Ata.State.{AtaDevice, AtaState, max_drives, primary_io, secondary_io}
use szym_os_kernel.Ata.Identify.{
  model_bytes, trim_spaces, model_string, identified, has_data, identify_poll, identify_words,
  ata_identify, probe, ata_detect_drives,
}
use szym_os_kernel.Ata.Wait.{ata_400ns_delay, reg_drive, reg_status, cmd_identify}

length-model_bytes : (n k : ℕ) (words : List ℕ) → length (model_bytes n k words) ≡ n + n
unfolding model_bytes
length-model_bytes zero k words = refl
length-model_bytes (suc n) k words = omega (arith, length-model_bytes n (k + 1) words)

length-trim_spaces : (i : ℕ) (model : List ℕ) → length (trim_spaces i model) ≡ length model
unfolding trim_spaces
length-trim_spaces zero model = refl
length-trim_spaces (suc i) model =
    let rest = length-trim_spaces i (set model i 0) in ground (arith, rest, length-set model i 0)

get_or-set_ne : (xs : List ℕ) (i j v : ℕ) → i < j → get_or (set xs i v) j 0 ≡ get_or xs j 0
get_or-set_ne [] i j v h = refl
get_or-set_ne (x ∷ xs) i zero v h = absurd (omega arith)
get_or-set_ne (x ∷ xs) zero (suc j) v h = refl
get_or-set_ne (x ∷ xs) (suc i) (suc j) v h = get_or-set_ne xs i j v (omega arith)

-- The bytes behind those that are trimmed stay.
get_or-trim_spaces :
    (i j : ℕ) (model : List ℕ) → i ≤ j → get_or (trim_spaces i model) j 0 ≡ get_or model j 0
unfolding trim_spaces
get_or-trim_spaces zero j model h = refl
get_or-trim_spaces (suc i) j model h =
    let rest = get_or-trim_spaces i j (set model i 0) (omega arith) in
    ground (arith, rest, get_or-set_ne model i j 0 (omega arith))

get_or-end : (xs : List ℕ) (v j : ℕ) → length xs ≡ j → get_or (xs ++ v ∷ []) j 0 ≡ v
get_or-end [] v zero h = refl
get_or-end [] v (suc j) h = absurd (omega arith)
get_or-end (x ∷ xs) v zero h = absurd (omega arith)
get_or-end (x ∷ xs) v (suc j) h = get_or-end xs v j (omega arith)

-- An entry of a drive that has answered: its place on one of the two channels, and a name that is
-- terminated within its array.
pub record IsDetected (a : AtaDevice) : Type 0 where
  pub is_present : a.present ≡ 1
  pub channel : (a.io_base ≡ primary_io) ⊎ (a.io_base ≡ secondary_io)
  pub number : a.drive < 2
  pub name_size : length a.model ≡ 41
  pub name_ends : get_or a.model 40 0 ≡ 0
  pub size_right : a.size_mb ≡ a.sectors / 2048

-- The first `n` entries are of drives that have answered.
abbrev pub AreDetected : ℕ → List AtaDevice → Type 0
AreDetected n drives =
    (i : ℕ) → i < n → (a : AtaDevice) × (get_elem? drives i ≡ some a) × IsDetected a

identified-IsDetected :
    (words : List ℕ) (a : AtaDevice)
    → (a.io_base ≡ primary_io) ⊎ (a.io_base ≡ secondary_io)
    → a.drive < 2
    → IsDetected (identified words a)
unfolding identified model_string
identified-IsDetected words a channel number =
    let size = length-model_bytes 20 27 words in
    record {
      is_present = refl;
      channel = channel;
      number = number;
      name_size =
          length-trim_spaces 40 (model_bytes 20 27 words ++ 0 ∷ [])
          ∙ omega (arith, size, length-append (model_bytes 20 27 words) (0 ∷ []));
      name_ends =
          get_or-trim_spaces 40 40 (model_bytes 20 27 words ++ 0 ∷ []) (omega arith)
          ∙ get_or-end (model_bytes 20 27 words) 0 40 size;
      size_right = refl;
    }

module _ {Device : Type 0} (ports : Ports Device) where
  ata_identify-cases :
      (io_base drive : ℕ) (a : AtaDevice) (d : Device)
      → (io_base ≡ primary_io) ⊎ (io_base ≡ secondary_io)
      → drive < 2
      → let r = ata_identify ports io_base drive a d in
        (r.0 ≡ false) ⊎ ((r.0 ≡ true) × IsDetected r.1)
  unfolding ata_identify
  ata_identify-cases io_base drive a d channel number =
      let entry = record a { io_base = io_base; drive = drive; present = 0 } in
      let d1 =
        ata_400ns_delay ports io_base
          (ports.outb (u16 (io_base + reg_drive)) (u8 (bit_or 0xA0 (shl drive 4))) d) in
      let d2 =
        ata_400ns_delay ports io_base (ports.outb (u16 (io_base + reg_status)) cmd_identify d1) in
      let (status, d3) = ports.inb (u16 (io_base + reg_status)) d2 in
      let (timeout, d4) = identify_poll ports (u16 (io_base + reg_status)) 10000 d3 in
      let words = (identify_words ports 256 io_base d4).0 in
      elim (Bool-cases (status == 0)) [
        | inl e ↦ inl (rw e refl)
        | inr e ↦ elim (Bool-cases (has_data timeout)) [
          | inl f ↦ inr (rw (e, f) (refl, identified-IsDetected words entry channel number))
          | inr f ↦ inl (rw (e, f) refl)
        ]
      ]

  -- The part of the table behind a probe.
  pub record IsProbed (count : ℕ) (drives : List AtaDevice) (r : ℕ × List AtaDevice × Device)
      : Type 0 where
    pub counted : r.0 ≤ count + 1
    pub table : length r.1 ≡ length drives
    pub detected : AreDetected r.0 r.1

  -- A place below the count is not changed by a probe, and the probed one counts if it has answered.
  probe-IsProbed :
      (io_base drive count : ℕ) (drives : List AtaDevice) (d : Device)
      → (io_base ≡ primary_io) ⊎ (io_base ≡ secondary_io)
      → drive < 2
      → count < length drives
      → AreDetected count drives
      → (r : ℕ × List AtaDevice × Device) × (probe ports io_base drive count drives d ≡ some r)
        × IsProbed count drives r
  unfolding probe
  probe-IsProbed io_base drive count drives d channel number room before =
      let (a, at) = get_elem?-IsSome drives count room in
      let entry = (ata_identify ports io_base drive a d).1 in
      let table = length-set drives count entry in
      let old : AreDetected count (set drives count entry) = λ i h.
        let (b, stands, det) = before i h in
        (b, get_elem?-set_ne drives count i entry (λ e. absurd (omega arith)) ∙ stands, det) in
      elim (ata_identify-cases io_base drive a d channel number) [
        | inl e ↦ (
          (count, set drives count entry, (ata_identify ports io_base drive a d).2),
          rw (at, e) refl,
          record { counted = omega arith; table = table; detected = old },
        )
        | inr (e, det) ↦ (
          (count + 1, set drives count entry, (ata_identify ports io_base drive a d).2),
          rw (at, e) refl,
          record {
            counted = omega arith;
            table = table;
            detected = λ i h. elim (Bool-cases (i == count)) [
              | inl f ↦ (entry, ground (arith, f, get_elem?-set_self drives count entry room), det)
              | inr f ↦ old i (ground (arith, f, h))
            ];
          },
        )
      ]

  -- What `ata_detect_drives` leaves: the number of drives, at most four, is returned and kept, the table
  -- keeps its size, its entries below the number are of drives that have answered, and the
  -- selection is as before.
  pub record Detects (a : AtaState) (r : ℤ × AtaState × Device) : Type 0 where
    pub number : ℕ
    pub returned : r.0 ≡ pos number
    pub bound : number ≤ max_drives
    pub kept : r.1.drive_count ≡ pos number
    pub size : length r.1.drives ≡ max_drives
    pub answered : AreDetected number r.1.drives
    pub selection : r.1.selected_drive ≡ a.selected_drive

  -- With a table of four entries `ata_detect_drives` stays within it, whatever the devices answer. It
  -- returns and keeps the number of drives found, at most four; the entries below that number are
  -- marked present, on one of the two channels, with a name that is terminated within its 41 bytes and
  -- a size that agrees with the number of sectors; the selection is not changed.
  pub ata_detect_drives-Detects :
      (a : AtaState) (d : Device)
      → length a.drives ≡ max_drives
      → (r : ℤ × AtaState × Device) × (ata_detect_drives ports a d ≡ some r) × Detects a r
  unfolding ata_detect_drives
  ata_detect_drives-Detects a d size =
      let (r1, e1, p1) =
        probe-IsProbed primary_io 0 0 a.drives d (inl refl) (omega arith) (omega arith)
          (λ i h. absurd (omega arith)) in
      let (r2, e2, p2) =
        probe-IsProbed primary_io 1 r1.0 r1.1 r1.2 (inl refl) (omega arith)
          (omega (arith, p1.counted, p1.table)) p1.detected in
      let (r3, e3, p3) =
        probe-IsProbed secondary_io 0 r2.0 r2.1 r2.2 (inr refl) (omega arith)
          (omega (arith, p1.counted, p1.table, p2.counted, p2.table)) p2.detected in
      let (r4, e4, p4) =
        probe-IsProbed secondary_io 1 r3.0 r3.1 r3.2 (inr refl) (omega arith)
          (omega (arith, p1.counted, p1.table, p2.counted, p2.table, p3.counted, p3.table))
          p3.detected in
      (
        (pos r4.0, record a { drives = r4.1; drive_count = pos r4.0 }, r4.2),
        bind_some _ e1 ∙ (bind_some _ e2 ∙ (bind_some _ e3 ∙ bind_some _ e4)),
        record {
          number = r4.0;
          returned = refl;
          bound = omega (arith, p1.counted, p2.counted, p3.counted, p4.counted);
          kept = refl;
          size = p4.table ∙ p3.table ∙ p2.table ∙ p1.table ∙ size;
          answered = p4.detected;
          selection = refl;
        },
      )

-- ===== src/Ata/Identify.antt =====
-- `ata_identify` and `ata_detect_drives` of kernel/ata.c.
use szym_os_kernel.Prelude.{
  ℕ, zero, suc, ◌+◌, ◌/◌, Bool, true, false, not, ◌&&◌, Option, none, some, List, [], ◌∷◌, ◌++◌, ℤ,
  pos, negsuc, ltb_ℤ, ◌==◌, if◌then◌else◌, ◌>>=◌, u8, u16, u32, shl, shr, bit_and, bit_or,
  get_elem?, get_or, set,
}
use szym_os_kernel.Ports.{Ports}
use szym_os_kernel.Ata.State.{AtaDevice, AtaState, primary_io, secondary_io}
use szym_os_kernel.Ata.Wait.{
  reg_drive, reg_status, cmd_identify, is_busy, wants_data, has_error, has_bit, ata_400ns_delay,
}

-- The characters of the words 27 to 46, the high byte of a word first.
unfoldable pub model_bytes : ℕ → ℕ → List ℕ → List ℕ
model_bytes zero k words = []
model_bytes (suc n) k words =
    u8 (shr (get_or words k 0) 8) ∷ bit_and (get_or words k 0) 0xFF ∷ model_bytes n (k + 1) words

-- `for (; i >= 0; i--) if (model[i] == ' ') model[i] = '\0'; else break;` for the indices below the
-- first argument.
unfoldable pub trim_spaces : ℕ → List ℕ → List ℕ
trim_spaces zero model = model
trim_spaces (suc i) model =
    let rest = trim_spaces i (set model i 0) in if get_or model i 0 == b' ' then rest else model

unfoldable pub model_string : List ℕ → List ℕ
unfolding model_bytes trim_spaces
model_string words = trim_spaces 40 (model_bytes 20 27 words ++ 0 ∷ [])

-- `((uint32_t)identify[high] << 16) | identify[low]`
abbrev pub double_word : List ℕ → ℕ → ℕ → ℕ
double_word words high low = u32 (bit_or (shl (get_or words high 0) 16) (get_or words low 0))

-- The 48-bit count if the drive has one, cut to 32 bits, else the 28-bit one.
unfoldable pub sector_count : List ℕ → ℕ
sector_count words =
    if has_bit (get_or words 83 0) 1024
    then (if double_word words 103 102 == 0 then double_word words 101 100 else 0xFFFFFFFF)
    else double_word words 61 60

-- What the identification says of the drive.
unfoldable pub identified : List ℕ → AtaDevice → AtaDevice
unfolding model_string sector_count
identified words device = record device {
  model = model_string words;
  sectors = sector_count words;
  size_mb = sector_count words / 2048;
  is_removable = if has_bit (get_or words 0 0) 0x80 then 1 else 0;
  present = 1;
}

-- The answer to the loop: whether it ended with the drive's data before its time.
abbrev pub has_data : Option ℤ → Bool
has_data none = false
has_data (some timeout) = ltb_ℤ (pos 0) timeout

module _ {Device : Type 0} (ports : Ports Device) where
  -- The loop `while (timeout--)` and the `timeout` behind it, -1 where it runs out; `none` is the
  -- return on an error of the drive.
  unfoldable pub identify_poll : ℕ → ℕ → Device → Option ℤ × Device
  identify_poll port zero d = (some (negsuc 0), d)
  identify_poll port (suc timeout) d =
      let (status, d') = ports.inb port d in
      let rest = identify_poll port timeout d' in
      if has_error status
      then (none, d')
      else if not (is_busy status) && wants_data status
      then (some (pos timeout), d')
      else rest

  unfoldable pub identify_words : ℕ → ℕ → Device → List ℕ × Device
  identify_words zero io_base d = ([], d)
  identify_words (suc n) io_base d =
      let (w, d') = ports.inw (u16 io_base) d in
      let (rest, d'') = identify_words n io_base d' in (w ∷ rest, d'')

  -- The result, and the entry that `device` points to.
  unfoldable pub ata_identify : ℕ → ℕ → AtaDevice → Device → Bool × AtaDevice × Device
  ata_identify io_base drive device d =
      let entry = record device { io_base = io_base; drive = drive; present = 0 } in
      let d1 =
        ata_400ns_delay ports io_base
          (ports.outb (u16 (io_base + reg_drive)) (u8 (bit_or 0xA0 (shl drive 4))) d) in
      let d2 =
        ata_400ns_delay ports io_base (ports.outb (u16 (io_base + reg_status)) cmd_identify d1) in
      let (status, d3) = ports.inb (u16 (io_base + reg_status)) d2 in
      let (timeout, d4) = identify_poll (u16 (io_base + reg_status)) 10000 d3 in
      let (words, d5) = identify_words 256 io_base d4 in
      if status == 0
      then (false, entry, d3)
      else if has_data timeout
      then (true, identified words entry, d5)
      else (false, entry, d4)

  -- `if (ata_identify(io_base, drive, &drives[drive_count])) drive_count++;` at a count that is not
  -- negative; `none` is a pointer past the array.
  unfoldable pub probe : ℕ → ℕ → ℕ → List AtaDevice → Device → Option (ℕ × List AtaDevice × Device)
  probe io_base drive count drives d = get_elem? drives count >>= λ device.
      let (found, entry, d') = ata_identify io_base drive device d in
      some (if found then count + 1 else count, set drives count entry, d')

  unfoldable pub ata_detect_drives : AtaState → Device → Option (ℤ × AtaState × Device)
  unfolding probe
  ata_detect_drives a d = probe primary_io 0 0 a.drives d >>= λ r1.
      probe primary_io 1 r1.0 r1.1 r1.2 >>= λ r2. probe secondary_io 0 r2.0 r2.1 r2.2 >>= λ r3.
      probe secondary_io 1 r3.0 r3.1 r3.2 >>= λ r4.
      some (pos r4.0, record a { drives = r4.1; drive_count = pos r4.0 }, r4.2)

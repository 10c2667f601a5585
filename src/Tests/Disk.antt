-- ===== src/Tests/Disk.antt =====
-- A drive that keeps the law of `Disk` and is never busy.
use szym_os_kernel.Prelude.{
  ap, ◌∙◌, fun_ext, bit_and, ℕ, ◌+◌, ◌-◌, ◌*◌, ◌%◌, ◌<◌, ◌≡◌, refl, false, ◌&&◌, arith, ◌==◌,
  if◌then◌else◌,
}
use szym_os_kernel.Ports.{Ports}
use szym_os_kernel.Ata.Disk.{
  Disk, Drive, Phase, idle, reading, writing, is_idle, read_on, write_on, word, put_word,
}

-- The bytes are cut to their width when they are looked at.
abbrev pub seen : Drive → Drive
seen v = record v { sectors = λ l i. v.sectors l i % 256 }

abbrev pub next_word : Phase → (ℕ → ℕ → ℕ) → ℕ
next_word idle sectors = 0xFFFF
next_word (reading lba k) sectors = word (sectors lba) k
next_word (writing lba k) sectors = 0xFFFF

abbrev pub after_read : Phase → Phase
after_read idle = idle
after_read (reading lba k) = read_on lba k
after_read (writing lba k) = writing lba k

abbrev pub after_write : Phase → Phase
after_write idle = idle
after_write (reading lba k) = reading lba k
after_write (writing lba k) = write_on lba k

abbrev pub stored_word : Phase → ℕ → (ℕ → ℕ → ℕ) → ℕ → ℕ → ℕ
stored_word idle w sectors = sectors
stored_word (reading lba k) w sectors = sectors
stored_word (writing lba k) w sectors = put_word lba k w sectors

-- The sector that the registers address.
abbrev pub address : Drive → ℕ
address v = v.lo + 256 * v.mid + 65536 * v.hi + 16777216 * (v.head - 224)

abbrev pub register : ℕ → ℕ → Drive → Drive
register port value v =
    if port == 0x1F6
    then record v { head = value }
    else if port == 0x1F2
    then record v { count = value }
    else if port == 0x1F3
    then record v { lo = value }
    else if port == 0x1F4
    then record v { mid = value }
    else if port == 0x1F5
    then record v { hi = value }
    else if port == 0x1F7 && value == 0x20
    then record v { phase = reading (address v) 0 }
    else if port == 0x1F7 && value == 0x30
    then record v { phase = writing (address v) 0 }
    else v

abbrev pub prompt_ports : Ports Drive
prompt_ports = record {
  inb = λ port v. (if is_idle v.phase then 0x50 else 0x58, v);
  inw = λ port v. (next_word v.phase (seen v).sectors, record v { phase = after_read v.phase });
  outb = register;
  outw = λ port w v. record v {
    phase = after_write v.phase;
    sectors = stored_word v.phase w v.sectors;
  };
}

pub ready_bits : (p : Phase) → bit_and (if is_idle p then 0x50 else 0x58) 0x80 ≡ 0
ready_bits idle = refl
ready_bits (reading lba k) = refl
ready_bits (writing lba k) = refl

pub request_bits :
    (p : Phase) → is_idle p ≡ false → bit_and (if is_idle p then 0x50 else 0x58) 0x08 ≡ 0x08
request_bits idle h = cc
request_bits (reading lba k) h = refl
request_bits (writing lba k) h = refl

pub cut_word :
    (lba k w : ℕ) (sectors : ℕ → ℕ → ℕ) (l i : ℕ)
    → w < 65536
    → put_word lba k w sectors l i % 256 ≡ put_word lba k w (λ l i. sectors l i % 256) l i
unfolding put_word
cut_word lba k w sectors l i h = ground arith

unfoldable pub prompt_disk : Disk prompt_ports 0x1F0 0
prompt_disk = record {
  drive_of = seen;
  polls = λ v. 0;
  capacity = 268435456;
  capacity_fits = omega arith;
  room = omega arith;
  io_fits = omega arith;
  drive_fits = omega arith;
  prompt = λ v. omega arith;
  bytes_fit = λ v l i. omega arith;
  status_keeps = λ v. refl;
  status_polls = λ v. refl;
  busy_shown = λ v h. absurd (omega arith);
  ready_shown = λ v h. ready_bits v.phase;
  request_shown = λ v h. request_bits v.phase;
  head_set = λ x v h. (refl, refl);
  count_set = λ x v h. (refl, refl);
  lo_set = λ x v h. (refl, refl);
  mid_set = λ x v h. (refl, refl);
  hi_set = λ x v h. (refl, refl);
  read_starts = λ lba v low h i a. ap (λ x. record (seen v) { phase = reading x 0 }) (omega arith);
  write_starts = λ lba v low h i a. ap (λ x. record (seen v) { phase = writing x 0 }) (omega arith);
  word_read = λ lba k v h e. (
    ap (λ p. next_word p (seen v).sectors) e,
    ap (λ p. record (seen v) { phase = after_read p }) e,
    refl,
  );
  word_written = λ lba k w v h e low.
      ap
        (λ p. record (seen v) {
          phase = after_write p;
          sectors = λ l i. stored_word p w v.sectors l i % 256;
        })
        e
      ∙ ap (λ (f : ℕ → ℕ → ℕ). record (seen v) { phase = write_on lba k; sectors = f })
          (fun_ext (λ l. fun_ext (λ i. cut_word lba k w v.sectors l i low)));
  word_settles = λ lba k w v h p q. refl;
}

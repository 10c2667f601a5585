-- ===== src/Filesystem/Refine/Durable.antt =====
-- The drive is always in step with the files: kernel/filesystem.c saves at once what it changes.
pub mod History
pub mod Format
pub mod Blank
use szym_os_kernel.Prelude.{
  ℕ, zero, suc, ◌+◌, ◌<◌, ◌≤◌, ◌≡◌, ◌⊎◌, refl, sym, ap, ◌∙◌, inl, inr, true, false, not, arith,
  Bool, Bool-cases, Option, none, some, List, [], ◌∷◌, ◌++◌, ltb, ℤ, pos, negsuc, eq_ℤ, eq_of_some,
  if_true, if_false, if◌then◌else◌, >>=-eq-some, ◌>>=◌, length, get_elem?, get_elem?-lt,
}
use szym_os_kernel.Prelude.Index.{AreBytes}
use szym_os_kernel.CString.{strlen}
use szym_os_kernel.Ports.{Ports}
use szym_os_kernel.System.{System, with_fs}
use szym_os_kernel.Ata.Disk.{Disk}
use szym_os_kernel.Filesystem.State.{FsState, max_files, max_file_size}
use szym_os_kernel.Filesystem.Files.{
  fs_find_file, fs_find_free_slot, stored_length, store_file, remove_file,
}
use szym_os_kernel.Filesystem.Directory.{count_used}
use szym_os_kernel.Filesystem.Directory.Find.{fs_find_free_slot-cases}
use szym_os_kernel.Filesystem.Layout.{encode_header}
use szym_os_kernel.Filesystem.Layout.RoundTrip.{length-encode_header}
use szym_os_kernel.Filesystem.Sector.Transfer.{Mounted}
use szym_os_kernel.Filesystem.Persist.{disk_available, fs_save_to_disk}
use szym_os_kernel.Filesystem.Persist.Frame.{KeepsFiles, fs_save_to_disk-KeepsFiles}
use szym_os_kernel.Filesystem.Persist.Save.{Holds, fs_save_to_disk-Holds}
use szym_os_kernel.Filesystem.Persist.Bytes.{
  HeaderIsStored, HeaderIsStored-Fits, encode_header-AreBytes, store_file-IsStored, store_file-data,
  remove_file-IsStored,
}
use szym_os_kernel.Filesystem.Ops.{found, create_in, fs_create_file, delete_in, fs_delete_file}

module _ {Device : Type 0} {ports : Ports Device} {io drive : ℕ} (disk : Disk ports io drive)
    (behind : List ℕ) (behind_bytes : AreBytes behind) where
  open disk use {drive_of}

  -- A drive is mounted and selected, and memory holds bytes that fit.
  pub record Ready (s : System Device) : Type 0 where
    pub mounted : Mounted disk s
    pub available : disk_available s ≡ true
    pub header : HeaderIsStored s.fs.header
    pub data_bytes : (k : ℕ) → s.fs.bytes k < 256

  -- And the drive holds what memory holds.
  pub record IsDurable (s : System Device) : Type 0 where
    pub ready : Ready s
    pub written : Holds (drive_of s.dev).sectors s.fs.header s.fs.bytes

  pub fs_save_to_disk-IsDurable :
      (s : System Device) → Ready s → IsDurable (fs_save_to_disk ports behind s)
  unfolding disk_available
  fs_save_to_disk-IsDurable s h =
      let kept = fs_save_to_disk-KeepsFiles ports behind s in
      let (holds, rests) =
        fs_save_to_disk-Holds disk behind s h.mounted h.available
          (length-encode_header s.fs.header (HeaderIsStored-Fits s.fs.header h.header))
          (encode_header-AreBytes s.fs.header behind h.header behind_bytes) h.data_bytes in
      record {
        ready = record {
          mounted = record {
            selected = kept.drive_selected ∙ h.mounted.selected;
            base = kept.drive_io_base ∙ h.mounted.base;
            number = kept.drive_num ∙ h.mounted.number;
            at_rest = rests;
          };
          available = ground (arith, kept.ata, h.available);
          header = rw kept.header h.header;
          data_bytes = rw kept.bytes h.data_bytes;
        };
        written = rw (kept.header, kept.bytes) holds;
      }

  -- A change of the files in memory that keeps the rest.
  Ready-change :
      (s : System Device) (f : FsState)
      → Ready s
      → f.drive_selected ≡ s.fs.drive_selected
      → f.drive_io_base ≡ s.fs.drive_io_base
      → f.drive_num ≡ s.fs.drive_num
      → HeaderIsStored f.header
      → ((k : ℕ) → f.bytes k < 256)
      → Ready (with_fs f s)
  unfolding disk_available
  Ready-change s f h a b c header bytes = record {
    mounted = record {
      selected = a ∙ h.mounted.selected;
      base = b ∙ h.mounted.base;
      number = c ∙ h.mounted.number;
      at_rest = h.mounted.at_rest;
    };
    available = h.available;
    header = header;
    data_bytes = bytes;
  }

  create_in-IsDurable :
      (slot : ℤ) (name content : List ℕ) (s : System Device) (r : ℤ × System Device)
      → AreBytes name
      → AreBytes content
      → ((k : ℕ) → slot ≡ pos k → k < max_files)
      → IsDurable s
      → create_in ports behind slot name content s ≡ some r
      → IsDurable r.1
  unfolding create_in store_file
  create_in-IsDurable (negsuc k) name content s r p q low h e = rw (← eq_of_some e) h
  create_in-IsDurable (pos slot) name content s r p q low h e =
      let (n, measured, e1) = >>=-eq-some (strlen content) _ e in
      elim (Bool-cases (ltb max_file_size n)) [
        | inl large ↦ let z = sym (if_true _ _ large) ∙ e1 in rw (← eq_of_some z) h
        | inr fits ↦
            let (m, named, e2) = >>=-eq-some (strlen name) _ (sym (if_false _ _ fits) ∙ e1) in
            let small : n ≤ max_file_size = ground (arith, fits) in
            rw (← eq_of_some e2) (
              fs_save_to_disk-IsDurable _ (
                Ready-change s (store_file s.fs slot name (stored_length m) content n) h.ready refl
                  refl refl
                  (store_file-IsStored s.fs slot (stored_length m) n name content p small
                    (low slot refl) h.ready.header)
                  (store_file-data s.fs slot (stored_length m) n name content q
                    h.ready.data_bytes)))
      ]

  -- A file is created or refused.
  pub fs_create_file-IsDurable :
      (name content : List ℕ) (s : System Device) (r : ℤ × System Device)
      → AreBytes name
      → AreBytes content
      → IsDurable s
      → fs_create_file ports behind name content s ≡ some r
      → IsDurable r.1
  unfolding fs_create_file
  fs_create_file-IsDurable name content s r p q h e = elim (Bool-cases s.fs.initialized) [
    | inr fresh ↦ let z = sym (if_true _ _ (ap not fresh)) ∙ e in rw (← eq_of_some z) h
    | inl started ↦
        let e0 = sym (if_false _ _ (ap not started)) ∙ e in
        let (slot, sought, e1) = >>=-eq-some (fs_find_file s.fs.header.files name) _ e0 in
        elim (Bool-cases (found slot)) [
          | inl f ↦ let z = sym (if_true _ _ f) ∙ e1 in rw (← eq_of_some z) h
          | inr f ↦
              create_in-IsDurable (fs_find_free_slot s.fs.header.files) name content s r p q
                (free_below s h) h (sym (if_false _ _ f) ∙ e1)
        ]
  ]
    where
      free_below :
          (s : System Device)
          → IsDurable s
          → (k : ℕ) → fs_find_free_slot s.fs.header.files ≡ pos k
          → k < max_files
      free_below s h k at = elim (fs_find_free_slot-cases s.fs.header.files) [
        | inl (none_free, _) ↦ let z : negsuc 0 ≡ pos k = sym none_free ∙ at in cc
        | inr (j, x, free, stands, _) ↦
            let z : pos j ≡ pos k = sym free ∙ at in
            ground (arith, get_elem?-lt s.fs.header.files j stands, h.ready.header.files_size, z)
      ]

  delete_in-IsDurable :
      (slot : ℤ) (s : System Device) → IsDurable s → IsDurable (delete_in ports behind slot s).1
  unfolding delete_in remove_file
  delete_in-IsDurable (negsuc k) s h = h
  delete_in-IsDurable (pos slot) s h = fs_save_to_disk-IsDurable _ (
      Ready-change s (remove_file s.fs slot) h.ready refl refl refl
        (remove_file-IsStored s.fs slot h.ready.header) h.ready.data_bytes)

  pub fs_delete_file-IsDurable :
      (name : List ℕ) (s : System Device) (r : ℤ × System Device)
      → IsDurable s
      → fs_delete_file ports behind name s ≡ some r
      → IsDurable r.1
  unfolding fs_delete_file
  fs_delete_file-IsDurable name s r h e = elim (Bool-cases s.fs.initialized) [
    | inr fresh ↦ let z = sym (if_true _ _ (ap not fresh)) ∙ e in rw (← eq_of_some z) h
    | inl started ↦
        let e0 = sym (if_false _ _ (ap not started)) ∙ e in
        let (slot, sought, e1) = >>=-eq-some (fs_find_file s.fs.header.files name) _ e0 in
        rw (← eq_of_some e1) (delete_in-IsDurable slot s h)
  ]

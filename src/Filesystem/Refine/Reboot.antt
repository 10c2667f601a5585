-- ===== src/Filesystem/Refine/Reboot.antt =====
-- The files of a saved file system after the machine has been started again.
use szym_os_kernel.Prelude.{
  ℕ, ◌+◌, ◌≤◌, ◌<◌, ◌≡◌, refl, ap, ◌∙◌, true, List, [], ◌∷◌, ◌++◌, arith, Bool-cases, inl, inr,
  length,
}
use szym_os_kernel.Prelude.Bytes.{Memory, slice_ext}
use szym_os_kernel.Prelude.Index.{AreBytes}
use szym_os_kernel.Ports.{Ports}
use szym_os_kernel.System.{System, with_fs}
use szym_os_kernel.Ata.Disk.{Disk, idle}
use szym_os_kernel.Filesystem.State.{FileEntry, FsState, max_files, data_size}
use szym_os_kernel.Filesystem.Layout.{encode_header}
use szym_os_kernel.Filesystem.Layout.RoundTrip.{HeaderFits, length-encode_header}
use szym_os_kernel.Filesystem.Sector.Transfer.{Mounted}
use szym_os_kernel.Filesystem.Persist.{
  disk_available, reset_fs, fs_save_to_disk, fs_load_from_disk, fs_init,
}
use szym_os_kernel.Filesystem.Persist.Save.{Holds, fs_save_to_disk-Holds}
use szym_os_kernel.Filesystem.Persist.Load.{fs_load_from_disk-Holds}
use szym_os_kernel.Filesystem.Directory.{view, view_files, holds, FilesAreValid}
use szym_os_kernel.Filesystem.Refine.Session.{Files, Represents}

-- Where `fs_data` is the same, valid entries show the same files.
view_files-same :
    (slot : ℕ) (files : List FileEntry) (b b' : Memory) (u : List ℕ)
    → FilesAreValid slot files
    → slot + length files ≤ max_files
    → ((k : ℕ) → k < data_size → b' k ≡ b k)
    → view_files b' files u ≡ view_files b files u
unfolding view_files holds
view_files-same slot [] b b' u v room same = refl
view_files-same slot (e ∷ es) b b' u v room same =
    let rest = view_files-same (slot + 1) es b b' u v.1 (omega arith) same in
    elim (Bool-cases (holds u e)) [
      | inl h ↦
          let inside : e.offset + e.size ≤ data_size = ground (arith, v.0.placed, v.0.size_fits) in
          ground (arith, slice_ext b' b e.offset e.size (λ i p q. same i (omega arith)))
      | inr h ↦ ground (arith, rest)
    ]

-- A state with the header and the data of another has its files.
pub Represents-same :
    {Device : Type 0} (s s' : System Device) (fs : Files)
    → s'.fs.header ≡ s.fs.header
    → ((k : ℕ) → k < data_size → s'.fs.bytes k ≡ s.fs.bytes k)
    → s'.fs.initialized ≡ true
    → Represents s fs
    → Represents s' fs
unfolding view
Represents-same s s' fs header bytes ready rep = record {
  valid = ground (arith, rep.valid);
  ready = ready;
  same = λ u. rw header (
      view_files-same 0 s.fs.header.files s.fs.bytes s'.fs.bytes u rep.valid.files_valid
        (omega (arith, rep.valid.files_size)) bytes
      ∙ rep.same u);
  number = rw header rep.number;
  names_differ = rep.names_differ;
}

module _ {Device : Type 0} {ports : Ports Device} {io drive : ℕ} (disk : Disk ports io drive)
    (behind : List ℕ) where
  open disk use {drive_of}

  -- What a state must be like for its save to be complete: a drive is mounted and selected, the header's
  -- fields fit their C types, and memory holds bytes.
  pub record CanSave (s : System Device) : Type 0 where
    pub mounted : Mounted disk s
    pub available : disk_available s ≡ true
    pub fits : HeaderFits s.fs.header
    pub header_bytes : AreBytes (encode_header s.fs.header ++ behind)
    pub data_bytes : (k : ℕ) → s.fs.bytes k < 256

  -- The state of a machine that has been started again and given the drive; its memory is whatever it
  -- is.
  pub record Restarts (r : System Device) : Type 0 where
    pub selected : r.fs.drive_selected ≡ true
    pub base : r.fs.drive_io_base ≡ io
    pub number : r.fs.drive_num ≡ drive
    pub available : disk_available r ≡ true
    pub fits : HeaderFits (reset_fs r.fs).header

  -- The files that the drive holds are loaded.
  pub fs_init-Holds :
      (behind' : List ℕ) (s r : System Device) (fs : Files)
      → Represents s fs
      → HeaderFits s.fs.header
      → Restarts r
      → Holds (drive_of r.dev).sectors s.fs.header s.fs.bytes
      → (drive_of r.dev).phase ≡ idle
      → Represents (fs_init ports behind' r) fs
  unfolding fs_init disk_available
  fs_init-Holds behind' s r fs rep fits re there rests =
      let r1 = with_fs (reset_fs r.fs) r in
      let (header, bytes, ready) =
        fs_load_from_disk-Holds disk behind' r1 s.fs.header s.fs.bytes
          (record { selected = re.selected; base = re.base; number = re.number; at_rest = rests })
          re.available (length-encode_header (reset_fs r.fs).header re.fits) fits
          rep.valid.magic_right there in
      let same : (fs_init ports behind' r).fs ≡ (fs_load_from_disk ports behind' r1).fs =
        ground (arith, re.available) in
      Represents-same s (fs_init ports behind' r) fs (ap (λ (f : FsState). f.header) same ∙ header)
        (λ k p. ap (λ (f : FsState). f.bytes k) same ∙ bytes k p)
        (ap (λ (f : FsState). f.initialized) same ∙ ready) rep

  -- The state of a machine that has been started again and given the drive on which `s` was saved;
  -- its memory is whatever it is.
  pub record Restarted (s r : System Device) : Type 0 where
    pub device : r.dev ≡ (fs_save_to_disk ports behind s).dev
    pub selected : r.fs.drive_selected ≡ true
    pub base : r.fs.drive_io_base ≡ io
    pub number : r.fs.drive_num ≡ drive
    pub available : disk_available r ≡ true
    pub fits : HeaderFits (reset_fs r.fs).header

  -- On a drive that behaves as documented, the files survive: if a file system holds the given files
  -- and is saved, then after `fs_init` on a restarted machine it is initialised, valid, and holds them,
  -- each with its content.
  pub fs_init-fs_save_to_disk :
      (behind' : List ℕ) (s r : System Device) (fs : Files)
      → Represents s fs
      → CanSave s
      → Restarted s r
      → Represents (fs_init ports behind' r) fs
  fs_init-fs_save_to_disk behind' s r fs rep can re =
      let (holds, rests) =
        fs_save_to_disk-Holds disk behind s can.mounted can.available
          (length-encode_header s.fs.header can.fits) can.header_bytes can.data_bytes in
      fs_init-Holds behind' s r fs rep can.fits
        (record {
          selected = re.selected;
          base = re.base;
          number = re.number;
          available = re.available;
          fits = re.fits;
        })
        (rw re.device holds) (ap (λ d. (drive_of d).phase) re.device ∙ rests)

-- ===== src/Filesystem/Refine/Durable/History.antt =====
-- Any sequence of calls of kernel/filesystem.c on a drive, and a restart after it.
use szym_os_kernel.Prelude.{ℕ, ◌≡◌, ap, ◌∙◌, some, List, [], ◌∷◌, >>=-eq-some, eq_of_some}
use szym_os_kernel.Prelude.Index.{AreBytes}
use szym_os_kernel.Ports.{Ports}
use szym_os_kernel.System.{System, with_dev}
use szym_os_kernel.Ata.Disk.{Disk}
use szym_os_kernel.Filesystem.Persist.{disk_available, fs_init}
use szym_os_kernel.Filesystem.Persist.Bytes.{HeaderIsStored-Fits}
use szym_os_kernel.Filesystem.Ops.{fs_create_file, fs_delete_file, fs_read_file, fs_file_exists}
use szym_os_kernel.Filesystem.Refine.Session.{
  Request, create, delete, read, exists, Reply, serve, Files, AllSpoken, quiet, spoken, ask,
  ask_all, Represents,
}
use szym_os_kernel.Filesystem.Refine.Session.Steps.{serve_refines}
use szym_os_kernel.Filesystem.Refine.Reboot.{Restarts, fs_init-Holds}
use szym_os_kernel.Filesystem.Refine.Durable.{
  IsDurable, fs_create_file-IsDurable, fs_delete_file-IsDurable,
}

-- What a client writes is bytes.
abbrev pub AreByteRequests : List Request → Type 0
AreByteRequests [] = Unit
AreByteRequests (create name text ∷ qs) = AreBytes name × AreBytes text × AreByteRequests qs
AreByteRequests (delete name ∷ qs) = AreByteRequests qs
AreByteRequests (read name max_size ∷ qs) = AreByteRequests qs
AreByteRequests (exists name ∷ qs) = AreByteRequests qs

-- The files that a sequence of requests leaves.
unfoldable pub files_left : {qs : List Request} → AllSpoken qs → Files → Files
unfolding ask
files_left quiet fs = fs
files_left (spoken q qs) fs = files_left qs (ask q fs).1

-- The calls one after the other, with the reply of each.
pub data History {Device : Type 0} (ports : Ports Device) (behind : List ℕ)
    : List Request → System Device → List Reply → System Device → Type 0 where
  at_rest : (s : System Device) → History ports behind [] s [] s
  serves :
      (q : Request) (qs : List Request) (s s1 s' : System Device) (reply : Reply)
      (replies : List Reply)
      → serve ports behind q s ≡ some (reply, s1)
      → History ports behind qs s1 replies s'
      → History ports behind (q ∷ qs) s (reply ∷ replies) s'

module _ {Device : Type 0} {ports : Ports Device} {io drive : ℕ} (disk : Disk ports io drive)
    (behind : List ℕ) (behind_bytes : AreBytes behind) where
  abbrev IsByteRequest : Request → Type 0
  IsByteRequest q = AreByteRequests (q ∷ [])

  serve-IsDurable :
      (q : Request) (s : System Device) (r : Reply × System Device)
      → IsByteRequest q
      → IsDurable disk behind behind_bytes s
      → serve ports behind q s ≡ some r
      → IsDurable disk behind behind_bytes r.1
  unfolding serve
  serve-IsDurable (create name text) s r b h e =
      let (x, ran, e1) = >>=-eq-some (fs_create_file ports behind name text s) _ e in
      rw (← eq_of_some e1)
        (fs_create_file-IsDurable disk behind behind_bytes name text s x b.0 b.1 h ran)
  serve-IsDurable (delete name) s r b h e =
      let (x, ran, e1) = >>=-eq-some (fs_delete_file ports behind name s) _ e in
      rw (← eq_of_some e1) (fs_delete_file-IsDurable disk behind behind_bytes name s x h ran)
  serve-IsDurable (read name max_size) s r b h e =
      let (x, ran, e1) = >>=-eq-some (fs_read_file name max_size s.fs) _ e in rw (← eq_of_some e1) h
  serve-IsDurable (exists name) s r b h e =
      let (x, ran, e1) = >>=-eq-some (fs_file_exists name s.fs) _ e in rw (← eq_of_some e1) h

  -- The parts of the requests' bytes.
  first_bytes :
      (q : Request) (qs : List Request)
      → AreByteRequests (q ∷ qs)
      → IsByteRequest q × AreByteRequests qs
  first_bytes (create name text) qs b = ((b.0, b.1, tt), b.2)
  first_bytes (delete name) qs b = (tt, b)
  first_bytes (read name max_size) qs b = (tt, b)
  first_bytes (exists name) qs b = (tt, b)

  -- A sequence of calls keeps the drive in step with the files of the specification.
  pub History-IsDurable :
      {qs : List Request} (sp : AllSpoken qs) (s : System Device) (fs : Files)
      → AreByteRequests qs
      → Represents s fs
      → IsDurable disk behind behind_bytes s
      → (s' : System Device) × History ports behind qs s (ask_all sp fs) s'
        × Represents s' (files_left sp fs)
        × IsDurable disk behind behind_bytes s'
  unfolding ask_all files_left
  History-IsDurable quiet s fs b rep h = (s, at_rest s, rep, h)
  History-IsDurable (spoken {q} {qs} sp sps) s fs b rep h =
      let (bq, bqs) = first_bytes q qs b in
      let (r, ran, replied, rep1) = serve_refines ports behind sp s fs rep in
      let h1 = serve-IsDurable q s r bq h ran in
      let (s', later, rep', h') = History-IsDurable sps r.1 (ask sp fs).1 bqs rep1 h1 in
      (
        s',
        serves q qs s r.1 s' (ask sp fs).0 (ask_all sps (ask sp fs).1)
            (ran ∙ ap (λ x. some (x, r.1)) replied) later,
        rep',
        h',
      )

  -- On a drive that behaves as documented, a file system that is in step with it survives a loss of
  -- power behind any call. Let a client make any requests, with terminated names of at most 31 bytes,
  -- terminated contents, both of bytes, and buffers of 1 to 2^32 - 1 bytes. Then every call returns
  -- with the reply of the list of the files, and if a machine to which the drive is given, with
  -- anything in memory that its C types can hold, is started behind them, its `fs_init` holds exactly
  -- the files that the requests leave.
  pub fs_init-History :
      {qs : List Request} (sp : AllSpoken qs) (behind' : List ℕ) (s m : System Device) (fs : Files)
      → AreByteRequests qs
      → Represents s fs
      → IsDurable disk behind behind_bytes s
      → Restarts disk behind m
      → (s' : System Device) × History ports behind qs s (ask_all sp fs) s'
        × Represents (fs_init ports behind' (with_dev s'.dev m)) (files_left sp fs)
  unfolding disk_available
  fs_init-History sp behind' s m fs b rep h re =
      let (s', ran, rep', h') = History-IsDurable sp s fs b rep h in
      (
        s',
        ran,
        fs_init-Holds disk behind behind' s' (with_dev s'.dev m) (files_left sp fs) rep'
            (HeaderIsStored-Fits s'.fs.header h'.ready.header)
            (record {
              selected = re.selected;
              base = re.base;
              number = re.number;
              available = re.available;
              fits = re.fits;
            })
            h'.written h'.ready.mounted.at_rest,
      )

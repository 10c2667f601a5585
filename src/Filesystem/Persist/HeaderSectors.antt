-- ===== src/Filesystem/Persist/HeaderSectors.antt =====
-- The three sectors that `fs_save_to_disk` fills from the header.
use szym_os_kernel.Prelude.{
  ℕ, ◌+◌, ◌*◌, ◌≤◌, ◌<◌, ◌≡◌, ◌∙◌, ap, List, ◌++◌, arith, ltb, if◌then◌else◌, length, length-append,
  length-replicate, get_or, get_or-drop, get_or-append, take, drop, replicate,
}
use szym_os_kernel.Prelude.Index.{
  AreBytes, get_or-out, get_or-overwrite_lem, get_or-take_lem, get_or-replicate_zero,
}
use szym_os_kernel.Filesystem.State.{Header, sector_size}
use szym_os_kernel.Filesystem.Layout.{encode_header}
use szym_os_kernel.Filesystem.Layout.RoundTrip.{HeaderFits, length-encode_header}
use szym_os_kernel.Filesystem.Persist.{sector_buffer, header_sector}

-- The buffer holds the bytes copied into it, and zeros behind them.
pub get_or-sector_buffer :
    (xs : List ℕ) (j : ℕ)
    → get_or (sector_buffer xs) j 0 ≡ (if ltb j sector_size then get_or xs j 0 else 0)
unfolding sector_buffer
get_or-sector_buffer xs j =
    get_or-overwrite_lem (replicate sector_size 0) xs j
    ∙ rw (length-replicate {A = ℕ} sector_size 0, get_or-replicate_zero sector_size j)
        (ground (arith, get_or-out xs j))

pub sector_buffer-AreBytes : (xs : List ℕ) → AreBytes xs → AreBytes (sector_buffer xs)
sector_buffer-AreBytes xs h j = rw (get_or-sector_buffer xs j) (ground (arith, h j))

-- A sector of the header holds the bytes of the object from its offset on.
pub get_or-header_sector :
    (object : List ℕ) (i j : ℕ)
    → get_or (header_sector object i) j 0
      ≡ (if ltb j sector_size then get_or object (i * sector_size + j) 0 else 0)
unfolding header_sector
get_or-header_sector object i j =
    let part = take sector_size (drop (i * sector_size) object) in
    get_or-sector_buffer part j
    ∙ ground (
      arith,
      get_or-take_lem sector_size j (drop (i * sector_size) object),
      get_or-drop (i * sector_size) j object 0,
    )

pub header_sector-AreBytes :
    (object : List ℕ) (i : ℕ) → AreBytes object → AreBytes (header_sector object i)
header_sector-AreBytes object i h j =
    rw (get_or-header_sector object i j) (ground (arith, h (i * sector_size + j)))

-- The third sector of the header ends with the memory behind the object.
pub header_sector-behind :
    (h : Header) (behind : List ℕ) (j : ℕ)
    → HeaderFits h
    → 120 ≤ length behind
    → j < 120
    → get_or (header_sector (encode_header h ++ behind) 2) (392 + j) 0 ≡ get_or behind j 0
header_sector-behind h behind j fits room low =
    let size = length-encode_header h fits in
    let whole = length-append (encode_header h) behind in
    let at : 2 * sector_size + (392 + j) ≡ length (encode_header h) + j = omega arith in
    get_or-header_sector (encode_header h ++ behind) 2 (392 + j)
    ∙ ground arith
    ∙ ap (λ i. get_or (encode_header h ++ behind) i 0) at
    ∙ get_or-append (encode_header h) behind j 0

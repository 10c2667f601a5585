-- ===== src/Filesystem/Persist/Copy.antt =====
-- The bytes of the header's object and of `fs_data` after a sector has been copied into them.
use szym_os_kernel.Prelude.{
  ℕ, suc, ◌+◌, ◌-◌, ◌*◌, ◌/◌, ◌%◌, ◌≤◌, ◌<◌, ◌≡◌, ap, ◌∙◌, ◌&&◌, arith, List, leb, ltb,
  if◌then◌else◌, length, length-append, length-take, length-drop, length-overwrite, take, drop,
  overwrite, get_or, get_or-drop,
}
use szym_os_kernel.Prelude.Bytes.{Memory, slice, length-slice}
use szym_os_kernel.Prelude.Index.{
  get_or-slice, get_or-append_lem, get_or-take_lem, get_or-overwrite_lem,
}
use szym_os_kernel.Filesystem.State.{header_size}
use szym_os_kernel.Filesystem.Persist.{copy_to, copy_size, take_sector}

-- The bytes of an object after a `memcpy` into it.
pub get_or-copy_to :
    (object : List ℕ) (offset : ℕ) (xs : List ℕ) (k : ℕ)
    → offset ≤ length object
    → k < length object
    → get_or (copy_to object offset xs) k 0 ≡ (
        if leb offset k && ltb k (offset + length xs)
        then get_or xs (k - offset) 0
        else get_or object k 0)
unfolding copy_to
get_or-copy_to object offset xs k h p =
    get_or-append_lem (take offset object) (overwrite (drop offset object) xs) k
    ∙ rw (length-take offset object, get_or-take_lem offset k object)
        (ground (
          arith,
          get_or-overwrite_lem (drop offset object) xs (k - offset),
          length-drop offset object,
          get_or-drop offset (k - offset) object 0,
        ))

pub length-copy_to :
    (object : List ℕ) (offset : ℕ) (xs : List ℕ)
    → offset ≤ length object
    → length (copy_to object offset xs) ≡ length object
unfolding copy_to
length-copy_to object offset xs h = omega (
  arith,
  length-append (take offset object) (overwrite (drop offset object) xs),
  length-take offset object,
  length-overwrite (drop offset object) xs,
  length-drop offset object,
)

pub take_sector-copy_to :
    (object : List ℕ) (i : ℕ) (buffer : List ℕ)
    → i < 3
    → take_sector object i buffer
      ≡ copy_to object (i * 512) (take (copy_size (i * 512) header_size) buffer)
unfolding take_sector
take_sector-copy_to object i buffer h = ground arith

-- The object after sector `i` of the header has been copied into it.
pub get_or-take_sector :
    (object : List ℕ) (i : ℕ) (sector : Memory) (k : ℕ)
    → i < 3
    → length object ≡ header_size
    → k < header_size
    → get_or (take_sector object i (slice sector 0 512)) k 0 ≡ (
        if leb (i * 512) k && ltb k (i * 512 + 512)
        then sector (k - i * 512)
        else get_or object k 0)
get_or-take_sector object i sector k h size low =
    let part = take (copy_size (i * 512) header_size) (slice sector 0 512) in
    ap (λ (o : List ℕ). get_or o k 0) (take_sector-copy_to object i (slice sector 0 512) h)
    ∙ get_or-copy_to object (i * 512) part k (omega arith) (omega arith)
    ∙ rw
        (
          length-take (copy_size (i * 512) header_size) (slice sector 0 512),
          length-slice sector 0 512,
        )
        (ground (
          arith,
          get_or-take_lem (copy_size (i * 512) header_size) (k - i * 512) (slice sector 0 512),
          get_or-slice sector 0 512 (k - i * 512),
        ))

pub length-take_sector :
    (object : List ℕ) (i : ℕ) (buffer : List ℕ)
    → length object ≡ header_size
    → length (take_sector object i buffer) ≡ length object
unfolding take_sector
length-take_sector object i buffer size =
    ground (arith, length-copy_to object (i * 512) (take (copy_size (i * 512) header_size) buffer))

-- The sector and the offset in it of a byte of sector `i`.
pub split_offset :
    (i k : ℕ) → i * 512 ≤ k → k < i * 512 + 512 → (k / 512 ≡ i) × (k % 512 ≡ k - i * 512)
split_offset i k h p = omega arith

pub header_step :
    (n i k : ℕ) (object : List ℕ) (sectors : ℕ → ℕ → ℕ)
    → (if leb ((i + 1) * 512) k && ltb k ((i + 1 + n) * 512)
        then sectors (2048 + k / 512) (k % 512)
        else if leb (i * 512) k && ltb k (i * 512 + 512)
        then sectors (2048 + i) (k - i * 512)
        else get_or object k 0)
      ≡ (if leb (i * 512) k && ltb k ((i + suc n) * 512)
          then sectors (2048 + k / 512) (k % 512)
          else get_or object k 0)
header_step n i k object sectors = ground (arith, split_offset i k)

pub data_step :
    (n i k : ℕ) (bytes : Memory) (sectors : ℕ → ℕ → ℕ)
    → (if leb ((i + 1) * 512) k && ltb k ((i + 1 + n) * 512)
        then sectors (2051 + k / 512) (k % 512)
        else if leb (i * 512) k && ltb k (i * 512 + 512)
        then get_or (slice (sectors (2051 + i)) 0 512) (k - i * 512) 0
        else bytes k)
      ≡ (if leb (i * 512) k && ltb k ((i + suc n) * 512)
          then sectors (2051 + k / 512) (k % 512)
          else bytes k)
data_step n i k bytes sectors =
    ground (arith, split_offset i k, get_or-slice (sectors (2051 + i)) 0 512 (k - i * 512))

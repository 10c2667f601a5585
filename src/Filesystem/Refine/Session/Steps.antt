-- ===== src/Filesystem/Refine/Session/Steps.antt =====
-- One call of the file system, and any sequence of calls, against the list of files.
use szym_os_kernel.Prelude.{
  ℕ, ◌+◌, ◌≤◌, ◌≡◌, ◌⊎◌, refl, ap, ◌∙◌, inl, inr, true, false, none, some, List, [], ◌∷◌, arith, ℤ,
  pos, eq_ℤ, ltb, ◌==◌, if◌then◌else◌, Bool-cases, Option-cases, length,
}
use szym_os_kernel.CString.{text_eq}
use szym_os_kernel.CString.Compare.{text_eq_iff}
use szym_os_kernel.Ports.{Ports}
use szym_os_kernel.System.{System}
use szym_os_kernel.Filesystem.State.{max_files, max_file_size}
use szym_os_kernel.Filesystem.Directory.{view}
use szym_os_kernel.Filesystem.Refine.{
  create_code, create_view, create_count, delete_code, delete_view, delete_count, Leaves,
  read_reply, is_file,
}
use szym_os_kernel.Filesystem.Refine.Create.{fs_create_file-Leaves}
use szym_os_kernel.Filesystem.Refine.Delete.{fs_delete_file-Leaves}
use szym_os_kernel.Filesystem.Refine.Read.{fs_read_file-view, fs_file_exists-view}
use szym_os_kernel.Filesystem.Refine.Session.{
  Request, Reply, code, content, answer, serve, run, Files, find, erase, Spoken, says_create,
  says_delete, says_read, says_exists, AllSpoken, quiet, spoken, ask_create, ask_delete, ask,
  ask_all, NamesDiffer, Represents,
}

find-erase-none : (t u : List ℕ) (fs : Files) → find u fs ≡ none → find u (erase t fs) ≡ none
unfolding find erase
find-erase-none t u [] h = refl
find-erase-none t u ((w, c) ∷ fs) h = ground (arith, find-erase-none t u fs)

NamesDiffer-erase : (t : List ℕ) (fs : Files) → NamesDiffer fs → NamesDiffer (erase t fs)
unfolding erase
NamesDiffer-erase t [] d = tt
NamesDiffer-erase t ((w, c) ∷ fs) d = elim (Bool-cases (text_eq w t)) [
  | inl e ↦ rw e d.1
  | inr e ↦ rw e (find-erase-none t w fs d.0, NamesDiffer-erase t fs d.1)
]

find-erase :
    (t u : List ℕ) (fs : Files)
    → NamesDiffer fs
    → find u (erase t fs) ≡ (if text_eq t u then none else find u fs)
unfolding find erase
find-erase t u [] d = ground arith
find-erase t u ((w, c) ∷ fs) d =
    ground (arith, d.0, text_eq_iff w t, text_eq_iff w u, text_eq_iff t u, find-erase t u fs d.1)

length-erase :
    (t : List ℕ) (fs : Files) {c : List ℕ}
    → find t fs ≡ some c
    → length fs ≡ length (erase t fs) + 1
unfolding find erase
length-erase t [] h = cc
length-erase t ((w, c) ∷ fs) h = elim (Bool-cases (text_eq w t)) [
  | inl e ↦ rw e (omega arith)
  | inr e ↦ rw e (omega (arith, length-erase t fs (rw e at h)))
]

abbrev pub Refuses : (ℤ × Files) → Files → Type 0
Refuses (z, fs') fs = (eq_ℤ z (pos 0) ≡ false) × (fs' ≡ fs)

pub ask_create-cases :
    (t c : List ℕ) (fs : Files)
    → Refuses (ask_create t c fs) fs
      ⊎ ((find t fs ≡ none)
          × (length c ≤ max_file_size)
          × (ask_create t c fs ≡ (pos 0, (t, c) ∷ fs)))
unfolding ask_create
ask_create-cases t c fs = elim (Option-cases (find t fs)) [
  | inr (old, e) ↦ inl (ground arith)
  | inl e ↦ elim (Bool-cases (length fs == max_files)) [
    | inl full ↦ inl (ground arith)
    | inr room ↦ elim (Bool-cases (ltb max_file_size (length c))) [
      | inl large ↦ inl (ground arith)
      | inr fits ↦ inr (e, ground arith, ground arith)
    ]
  ]
]

pub ask_delete-cases :
    (t : List ℕ) (fs : Files)
    → Refuses (ask_delete t fs) fs
      ⊎ ((c : List ℕ) × (find t fs ≡ some c) × (ask_delete t fs ≡ (pos 0, erase t fs)))
unfolding ask_delete
ask_delete-cases t fs = elim (Option-cases (find t fs)) [
  | inr (old, e) ↦ inr (old, e, ground arith)
  | inl e ↦ inl (ground arith)
]

kept_same :
    {Device : Type 0} (z : ℤ) {s s' : System Device}
    → eq_ℤ z (pos 0) ≡ false
    → (eq_ℤ z (pos 0) ≡ true) ⊎ (s' ≡ s)
    → s' ≡ s
kept_same z h (inl e) = cc
kept_same z h (inr e) = e

module _ {Device : Type 0} (s : System Device) (fs : Files) (rep : Represents s fs) where
  pub create_code-ask : (t c : List ℕ) → create_code s.fs t c ≡ (ask_create t c fs).0
  unfolding create_code ask_create
  create_code-ask t c = ground (arith, rep.same t, rep.number)

  pub delete_code-ask : (t : List ℕ) → delete_code s.fs t ≡ (ask_delete t fs).0
  unfolding delete_code ask_delete
  delete_code-ask t = ground (arith, rep.same t)

  pub create_refines :
      (t c : List ℕ) (r : ℤ × System Device)
      → Leaves (create_code s.fs t c) (create_count s.fs t c) (create_view s.fs t c) s r
      → Represents r.1 (ask_create t c fs).1
  unfolding create_count create_view find
  create_refines t c r l = elim (ask_create-cases t c fs) [
    | inl (fails, e) ↦
        rw (e, kept_same (create_code s.fs t c) (rw (create_code-ask t c) fails) l.unchanged) rep
    | inr (new, small, e) ↦
        let done : create_code s.fs t c ≡ pos 0 =
          create_code-ask t c ∙ ap (λ (p : ℤ × Files). p.0) e in
        rw e (record {
          valid = l.valid;
          ready = l.ready;
          same = λ u. l.directory u ∙ rw done (ground (arith, rep.same u));
          number = l.counted ∙ rw done (omega (arith, rep.number));
          names_differ = (new, rep.names_differ);
        })
  ]

  pub delete_refines :
      (t : List ℕ) (r : ℤ × System Device)
      → Leaves (delete_code s.fs t) (delete_count s.fs t) (delete_view s.fs t) s r
      → Represents r.1 (ask_delete t fs).1
  unfolding delete_count delete_view
  delete_refines t r l = elim (ask_delete-cases t fs) [
    | inl (fails, e) ↦
        rw (e, kept_same (delete_code s.fs t) (rw (delete_code-ask t) fails) l.unchanged) rep
    | inr (c, at, e) ↦
        let done : delete_code s.fs t ≡ pos 0 = delete_code-ask t ∙ ap (λ (p : ℤ × Files). p.0) e in
        rw e (record {
          valid = l.valid;
          ready = l.ready;
          same = λ u.
              l.directory u ∙ rw (find-erase t u fs rep.names_differ) (ground (arith, rep.same u));
          number = l.counted ∙ rw done (omega (arith, rep.number, length-erase t fs at));
          names_differ = NamesDiffer-erase t fs rep.names_differ;
        })
  ]

module _ {Device : Type 0} (ports : Ports Device) (behind : List ℕ) where
  pub serve_refines :
      {q : Request} (sp : Spoken q) (s : System Device) (fs : Files)
      → Represents s fs
      → (r : Reply × System Device) × (serve ports behind q s ≡ some r)
        × (r.0 ≡ (ask sp fs).0)
        × Represents r.1 (ask sp fs).1
  unfolding serve ask
  serve_refines (says_create {name} {text} t c named short filled) s fs rep =
      let (r, ran, l) =
        fs_create_file-Leaves ports behind name text t c s rep.valid rep.ready named short filled in
      (
        (code r.0, r.1),
        rw ran,
        ap code (l.result ∙ create_code-ask s fs rep t c),
        create_refines s fs rep t c r l,
      )
  serve_refines (says_delete {name} t named) s fs rep =
      let (r, ran, l) = fs_delete_file-Leaves ports behind name t s rep.valid rep.ready named in
      (
        (code r.0, r.1),
        rw ran,
        ap code (l.result ∙ delete_code-ask s fs rep t),
        delete_refines s fs rep t r l,
      )
  serve_refines (says_read {name} {max_size} t named low high) s fs rep = (
    (content (read_reply (view s.fs t) max_size), s),
    rw (fs_read_file-view s.fs rep.valid rep.ready name t named max_size low high),
    rw (rep.same t),
    rep,
  )
  serve_refines (says_exists {name} t named) s fs rep = (
    (answer (is_file (view s.fs t)), s),
    rw (fs_file_exists-view s.fs rep.valid rep.ready name t named),
    rw (rep.same t),
    rep,
  )

  -- Whatever requests a client makes of a file system that holds the given files, with terminated
  -- names of at most 31 bytes, terminated contents and buffers of 1 to 2^32 - 1 bytes, every call
  -- returns, reads nothing out of range, and replies as the list of the files does: creating refuses
  -- a taken name, a 33rd file and a content of more than 4096 bytes; deleting and reading find
  -- exactly the files created and not deleted since, with their contents.
  pub run_refines :
      {qs : List Request} (sp : AllSpoken qs) (s : System Device) (fs : Files)
      → Represents s fs
      → run ports behind qs s ≡ some (ask_all sp fs)
  unfolding run ask_all
  run_refines quiet s fs rep = refl
  run_refines (spoken {q} {qs} sp sps) s fs rep =
      let (r, ran, same, rep') = serve_refines sp s fs rep in
      rw (ran, run_refines sps r.1 (ask sp fs).1 rep', same)

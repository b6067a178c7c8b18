-- ===== src/Process.antt =====
-- wfpdriver/util.c: the path of a process's image. `none` is an access outside of a buffer.
use wfpdriver.Shared.{
  drop, ℕ, zero, suc, ◌+◌, ◌≤◌, ◌≡◌, refl, ◌⊎◌, inl, inr, Bool, true, false, not, ◌&&◌, Option,
  none, some, ◌>>=◌, List, [], ◌∷◌, ◌++◌, length, take, ltb, ◌==◌, if◌then◌else◌, Bool-cases,
  rtl_copy, arith,
}

-- The UNICODE_STRING that ZwQueryInformationProcess stores: its Length in bytes, and what can be read
-- at its Buffer.
pub record ImageName : Type 0 where
  pub length : ℕ
  pub buffer : List ℕ

-- What the kernel answers: whether ZwOpenProcess succeeds, and the name if the query does.
pub record ProcessAnswers : Type 0 where
  pub open_process : Bool
  pub image_name : Option ImageName

-- The result, what is in the caller's buffer, and the process handles opened and closed.
pub record NamePath : Type 0 where
  pub found : Bool
  pub path : List ℕ
  pub opened : ℕ
  pub closed : ℕ

-- RtlMoveMemory of the name with its end, if there is a name and room for more than that.
unfoldable pub copy_name : ImageName → List ℕ → ℕ → Option (Bool × List ℕ)
copy_name name path pathlen =
    if ltb (name.length + 2) pathlen && not (name.length == 0)
    then (do out ← rtl_copy path name.buffer (name.length + 2); some (true, out))
    else some (false, path)

-- The query and what is made of it.
unfoldable pub query_name : ProcessAnswers → List ℕ → ℕ → Option (Bool × List ℕ)
query_name a path pathlen = elim (a.image_name) [
  | none ↦ some (false, path)
  | some name ↦ copy_name name path pathlen
]

-- QueryProcessNamePath, with a caller's buffer that has these bytes and is said to have `pathlen`.
unfoldable pub query_process_name_path : ProcessAnswers → List ℕ → ℕ → Option NamePath
query_process_name_path a path pathlen =
    let queried = (do
      (found, out) ← query_name a path pathlen
      some (record { found = found; path = out; opened = 1; closed = 1 })) in
    if a.open_process
    then queried
    else some (record { found = false; path = path; opened = 0; closed = 0 })

rtl_copy_over :
    (to from : List ℕ) (n : ℕ)
    → n ≤ length to
    → n ≤ length from
    → rtl_copy to from n ≡ some (take n from ++ drop n to)
unfolding rtl_copy drop
rtl_copy_over to from zero h k = refl
rtl_copy_over [] from (suc n) h k = absurd (omega arith)
rtl_copy_over (x ∷ xs) [] (suc n) h k = absurd (omega arith)
rtl_copy_over (x ∷ xs) (y ∷ ys) (suc n) h k =
    rw (rtl_copy_over xs ys n (omega arith) (omega arith)) refl

-- The name's bytes with its end are at the start of the caller's buffer, and the rest of that is as
-- before; or the whole of it is.
abbrev pub IsAnswered : Option ImageName → List ℕ → Bool × List ℕ → Type 0
IsAnswered image path (found, out) =
    ((name : ImageName) × (image ≡ some name)
      × (found ≡ true)
      × (out ≡ take (name.length + 2) name.buffer ++ drop (name.length + 2) path))
    ⊎ ((found ≡ false) × (out ≡ path))

-- What can be read at the name's buffer has its end too.
abbrev pub IsTerminated : Option ImageName → Type 0
IsTerminated none = Unit {0}
IsTerminated (some name) = name.length + 2 ≤ length name.buffer

copy_name-IsAnswered :
    (name : ImageName) (path : List ℕ) (pathlen : ℕ)
    → pathlen ≤ length path
    → name.length + 2 ≤ length name.buffer
    → (r : Bool × List ℕ) × (copy_name name path pathlen ≡ some r) × IsAnswered (some name) path r
unfolding copy_name
copy_name-IsAnswered name path pathlen h k =
    let n = name.length + 2 in
    elim (Bool-cases (ltb n pathlen && not (name.length == 0))) [
      | inl room ↦
          let fits : n ≤ length path = ground (arith, room, h) in
          (
            (true, take n name.buffer ++ drop n path),
            rw (room, rtl_copy_over path name.buffer n fits k) refl,
            inl (name, refl, refl, refl),
          )
      | inr small ↦ ((false, path), rw small refl, inr (refl, refl))
    ]

query_name-IsAnswered :
    (image : Option ImageName) (path : List ℕ) (pathlen : ℕ)
    → pathlen ≤ length path
    → IsTerminated image
    → (r : Bool × List ℕ) × (query_name
          (record { open_process = true; image_name = image })
          path
          pathlen
        ≡ some r)
      × IsAnswered image path r
unfolding query_name
query_name-IsAnswered none path pathlen h k = ((false, path), refl, inr (refl, refl))
query_name-IsAnswered (some name) path pathlen h k = copy_name-IsAnswered name path pathlen h k

-- If the caller's buffer is as long as it is said to be, and the kernel's string can be read with its
-- end, QueryProcessNamePath returns and closes the process if it opened it. Either it returns TRUE, and
-- then the name with its end is at the start of the buffer and the rest of that is as before, or it
-- returns FALSE and the buffer is as before.
pub query_process_name_path-IsAnswered :
    (a : ProcessAnswers) (path : List ℕ) (pathlen : ℕ)
    → pathlen ≤ length path
    → IsTerminated a.image_name
    → (r : NamePath) × (query_process_name_path a path pathlen ≡ some r)
      × (r.closed ≡ r.opened)
      × IsAnswered a.image_name path (r.found, r.path)
unfolding query_process_name_path query_name
query_process_name_path-IsAnswered a path pathlen h k = elim (Bool-cases a.open_process) [
  | inl opens ↦
      let (r, e, q) = query_name-IsAnswered a.image_name path pathlen h k in
      (record { found = r.0; path = r.1; opened = 1; closed = 1 }, rw opens (rw e refl), refl, q)
  | inr bad ↦ (
    record { found = false; path = path; opened = 0; closed = 0 },
    rw bad refl,
    refl,
    inr (refl, refl),
  )
]

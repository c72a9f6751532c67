-- ===== src/File/Counts.antt =====
-- What each operation does to the counts of the table.
use operating_systems.Prelude.{
  ℕ, zero, suc, ◌+◌, ◌-◌, ◌<◌, ◌≡◌, refl, sym, ap, ◌∙◌, subst, ◌≢◌, ◌↔◌, ◌⊎◌, inl, inr, false, none,
  some, List, [], ◌∷◌, arith, ltb, ◌==◌, if◌then◌else◌, Bool-cases, length, get_elem?, set,
}
use operating_systems.File.{
  puts_inode, closes_pipe, nothing, fd_none, fd_pipe, fd_inode, fd_device, FileType, File, Closing,
  still_open, closing, filealloc, filedup, fileclose,
}

-- The count of the file at index `i`.
abbrev pub ref_at : List File → ℕ → ℕ
ref_at [] i = 0
ref_at (f ∷ fs) zero = f.ref
ref_at (f ∷ fs) (suc i) = ref_at fs i

-- The table `u` is `t` with the count `n` at `i`.
pub record Counts (t u : List File) (i n : ℕ) : Type 0 where
  pub self : ref_at u i ≡ n
  pub others : (j : ℕ) → i ≢ j → ref_at u j ≡ ref_at t j

get-ref :
    (t : List File) (i : ℕ)
    → 0 < ref_at t i
    → (f : File) × (get_elem? t i ≡ some f) × (f.ref ≡ ref_at t i)
get-ref [] i h = elim h [ ]
get-ref (f ∷ fs) zero h = (f, refl, refl)
get-ref (f ∷ fs) (suc i) h = get-ref fs i h

Counts-set : (t : List File) (i : ℕ) (f : File) → 0 < ref_at t i → Counts t (set t i f) i f.ref
Counts-set t i f h = record { self = at_i t i h; others = λ j ne. at_j t i j ne }
  where
    at_i : (t : List File) (i : ℕ) → 0 < ref_at t i → ref_at (set t i f) i ≡ f.ref
    at_i [] i h = elim h [ ]
    at_i (g ∷ gs) zero h = refl
    at_i (g ∷ gs) (suc i) h = at_i gs i h

    at_j : (t : List File) (i j : ℕ) → i ≢ j → ref_at (set t i f) j ≡ ref_at t j
    at_j [] i j ne = refl
    at_j (g ∷ gs) zero zero ne = absurd (ne refl)
    at_j (g ∷ gs) zero (suc j) ne = refl
    at_j (g ∷ gs) (suc i) zero ne = refl
    at_j (g ∷ gs) (suc i) (suc j) ne = at_j gs i j (λ e. ne (ap suc e))

-- `filealloc` takes a file without a reference, and gives it one; it fails only where every file of
-- the table has references.
pub filealloc_lem :
    (t : List File)
    → ((filealloc t ≡ none) × ((i : ℕ) → i < length t → 0 < ref_at t i))
      ⊎ ((i : ℕ) × (u : List File) × (filealloc t ≡ some (i, u))
          × (ref_at t i ≡ 0)
          × Counts t u i 1)
unfolding filealloc
filealloc_lem [] = inl (refl, λ i h. elim h [ ])
filealloc_lem (f ∷ fs) = elim (Bool-cases (f.ref == 0)) [
  | inl y ↦ inr (
    0,
    record f { ref = 1 } ∷ fs,
    rw y refl,
    ground arith,
    record { self = refl; others = λ j ne. first_only f fs j ne },
  )
  | inr n ↦ elim (filealloc_lem fs) [
    | inl (e, full) ↦ inl (rw n (rw e refl), λ i h. no_room f fs i (ground arith) full h)
    | inr (i, u, e, free, k) ↦ inr (
      suc i,
      f ∷ u,
      rw n (rw e refl),
      free,
      record { self = k.self; others = λ j ne. shifted f fs u i j k ne },
    )
  ]
]
  where
    first_only :
        (f : File) (fs : List File) (j : ℕ)
        → 0 ≢ j
        → ref_at (record f { ref = 1 } ∷ fs) j ≡ ref_at (f ∷ fs) j
    first_only f fs zero ne = absurd (ne refl)
    first_only f fs (suc j) ne = refl

    no_room :
        (f : File) (fs : List File) (i : ℕ)
        → f.ref ≢ 0
        → ((i : ℕ) → i < length fs → 0 < ref_at fs i)
        → i < length (f ∷ fs)
        → 0 < ref_at (f ∷ fs) i
    no_room f fs zero ne full h = omega arith
    no_room f fs (suc i) ne full h = full i (omega arith)

    shifted :
        (f : File) (fs u : List File) (i j : ℕ)
        → Counts fs u i 1
        → suc i ≢ j
        → ref_at (f ∷ u) j ≡ ref_at (f ∷ fs) j
    shifted f fs u i zero k ne = refl
    shifted f fs u i (suc j) k ne = k.others j (λ e. ne (ap suc e))

filedup_get :
    (t : List File) (i : ℕ) (f : File)
    → get_elem? t i ≡ some f
    → ltb f.ref 1 ≡ false
    → filedup i t ≡ some (set t i (record f { ref = f.ref + 1 }))
unfolding filedup
filedup_get t i f at ok = rw (at, filedup) (rw ok refl)

pub filedup_lem :
    (t : List File) (i : ℕ)
    → 0 < ref_at t i
    → (u : List File) × (filedup i t ≡ some u) × Counts t u i (ref_at t i + 1)
filedup_lem t i h =
    let (f, at, r) = get-ref t i h in
    let ok : ltb f.ref 1 ≡ false = ground (arith, r) in
    let u = set t i (record f { ref = f.ref + 1 }) in
    (
      u,
      filedup_get t i f at ok,
      subst (λ n. Counts t u i (n + 1)) r (Counts-set t i (record f { ref = f.ref + 1 }) h),
    )

fileclose_get :
    (t : List File) (i : ℕ) (f : File)
    → get_elem? t i ≡ some f
    → ltb f.ref 1 ≡ false
    → fileclose i t ≡ (
        if ltb 0 (f.ref - 1)
        then some (set t i (record f { ref = f.ref - 1 }), still_open)
        else some (set t i (record f { ref = 0; kind = fd_none }), closing f))
unfolding fileclose closing
fileclose_get t i f at ok = rw (at, fileclose) (rw ok refl)

kind_ends : (kind : FileType) (f : File) → f.kind ≡ kind → closing f ≢ still_open
unfolding closing
kind_ends fd_none f q e = let is : closing f ≡ nothing = rw q refl in let clash = sym is ∙ e in cc
kind_ends fd_pipe f q e =
    let is : closing f ≡ closes_pipe f.pipe f.writable = rw q refl in let clash = sym is ∙ e in cc
kind_ends fd_inode f q e =
    let is : closing f ≡ puts_inode f.ip = rw q refl in let clash = sym is ∙ e in cc
kind_ends fd_device f q e =
    let is : closing f ≡ puts_inode f.ip = rw q refl in let clash = sym is ∙ e in cc

closing-ends : (f : File) → closing f ≢ still_open
closing-ends f e = kind_ends f.kind f refl e

-- What the last `fileclose` of a file does behind the lock, by the kind of the file.
pub record Closes (f : File) (c : Closing) : Type 0 where
  pub of_none : f.kind ≡ fd_none → c ≡ nothing
  pub of_pipe : f.kind ≡ fd_pipe → c ≡ closes_pipe f.pipe f.writable
  pub of_inode : f.kind ≡ fd_inode → c ≡ puts_inode f.ip
  pub of_device : f.kind ≡ fd_device → c ≡ puts_inode f.ip

closing-Closes : (f : File) → Closes f (closing f)
unfolding closing
closing-Closes f = record {
  of_none = λ e. rw e refl;
  of_pipe = λ e. rw e refl;
  of_inode = λ e. rw e refl;
  of_device = λ e. rw e refl;
}

-- `fileclose` of a file with references takes one away, and closes what the file stands for exactly
-- when it was the last.
pub fileclose_lem :
    (t : List File) (i : ℕ)
    → 0 < ref_at t i
    → (u : List File) × (c : Closing) × (fileclose i t ≡ some (u, c))
      × Counts t u i (ref_at t i - 1)
      × ((c ≡ still_open) ↔ (1 < ref_at t i))
      × ((f : File) × (get_elem? t i ≡ some f) × (ref_at t i ≡ 1 → Closes f c))
fileclose_lem t i h =
    let (f, at, r) = get-ref t i h in
    let ok : ltb f.ref 1 ≡ false = ground (arith, r) in
    let run = fileclose_get t i f at ok in
    elim (Bool-cases (ltb 0 (f.ref - 1))) [
      | inl more ↦
          let u = set t i (record f { ref = f.ref - 1 }) in
          (
            u,
            still_open,
            run ∙ rw more refl,
            subst (λ n. Counts t u i (n - 1)) r (Counts-set t i (record f { ref = f.ref - 1 }) h),
            (λ e. ground (arith, r), λ e. refl),
            (f, at, λ e. absurd (ground (arith, r))),
          )
      | inr last ↦
          let u = set t i (record f { ref = 0; kind = fd_none }) in
          let zero_left : 0 ≡ ref_at t i - 1 = ground (arith, r) in
          (
            u,
            closing f,
            run ∙ rw last refl,
            subst (λ n. Counts t u i n) zero_left
                (Counts-set t i (record f { ref = 0; kind = fd_none }) h),
            (λ e. absurd (closing-ends f e), λ e. ground (arith, r)),
            (f, at, λ e. closing-Closes f),
          )
    ]

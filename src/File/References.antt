-- ===== src/File/References.antt =====
-- The counts of references, and those who hold the references.
use operating_systems.Prelude.{
  ℕ, ◌+◌, ◌-◌, ◌<◌, ◌≡◌, refl, sym, ap, ◌∙◌, subst, ◌≢◌, ◌↔◌, inl, inr, Option, none, some, List,
  [], ◌∷◌, arith, ◌==◌, if◌then◌else◌, Bool-cases, get_elem?,
}
use operating_systems.File.{File, Closing, still_open, filealloc, filedup, fileclose}
use operating_systems.File.Counts.{
  ref_at, Counts, Closes, filealloc_lem, filedup_lem, fileclose_lem,
}

-- The references that are held to `i`.
abbrev pub held : List ℕ → ℕ → ℕ
held [] i = 0
held (r ∷ refs) i = if r == i then held refs i + 1 else held refs i

-- One reference to `i` is given up.
abbrev pub drop_one : List ℕ → ℕ → List ℕ
drop_one [] i = []
drop_one (r ∷ refs) i = let rest = drop_one refs i in if r == i then refs else r ∷ rest

pub record Files : Type 0 where
  pub table : List File
  pub refs : List ℕ

-- A holder duplicates and closes only references that it holds.
pub data Step (s : Files) : Files → Type 0 where
  opens :
      (i : ℕ) (t : List File)
      → filealloc s.table ≡ some (i, t)
      → Step s (record { table = t; refs = i ∷ s.refs })
  dups :
      (i : ℕ) (t : List File)
      → 0 < held s.refs i
      → filedup i s.table ≡ some t
      → Step s (record { table = t; refs = i ∷ s.refs })
  closes :
      (i : ℕ) (t : List File) (c : Closing)
      → 0 < held s.refs i
      → fileclose i s.table ≡ some (t, c)
      → Step s (record { table = t; refs = drop_one s.refs i })

pub data Reach (s : Files) : Files → Type 0 where
  here : Reach s s
  later : {t u : Files} → Reach s t → Step t u → Reach s u

-- Every count is the number of references.
abbrev pub IsValid : Files → Type 0
IsValid s = (i : ℕ) → ref_at s.table i ≡ held s.refs i

held-drop_self : (refs : List ℕ) (i : ℕ) → held (drop_one refs i) i ≡ held refs i - 1
held-drop_self [] i = refl
held-drop_self (r ∷ refs) i = ground (arith, held-drop_self refs i)

held-drop_other : (refs : List ℕ) (i j : ℕ) → i ≢ j → held (drop_one refs i) j ≡ held refs j
held-drop_other [] i j ne = refl
held-drop_other (r ∷ refs) i j ne = ground (arith, held-drop_other refs i j ne)

-- One reference more, in the table and among the holders.
grown :
    (t u : List File) (refs : List ℕ) (i j : ℕ)
    → Counts t u i (ref_at t i + 1)
    → ((j : ℕ) → ref_at t j ≡ held refs j)
    → ref_at u j ≡ held (i ∷ refs) j
grown t u refs i j k v = elim (Bool-cases (i == j)) [
  | inl y ↦
      let same : i ≡ j = ground arith in
      rw y (subst (λ x. ref_at u x ≡ held refs x + 1) same (k.self ∙ ap (λ n. n + 1) (v i)))
  | inr n ↦ rw n (k.others j (ground arith) ∙ v j)
]

shrunk :
    (t u : List File) (refs : List ℕ) (i j : ℕ)
    → Counts t u i (ref_at t i - 1)
    → ((j : ℕ) → ref_at t j ≡ held refs j)
    → ref_at u j ≡ held (drop_one refs i) j
shrunk t u refs i j k v = elim (Bool-cases (i == j)) [
  | inl y ↦
      let same : i ≡ j = ground arith in
      subst (λ x. ref_at u x ≡ held (drop_one refs i) x) same
        (k.self ∙ ap (λ n. n - 1) (v i) ∙ sym (held-drop_self refs i))
  | inr n ↦ let ne : i ≢ j = ground arith in k.others j ne ∙ v j ∙ sym (held-drop_other refs i j ne)
]

allocated :
    (t : List File) (i : ℕ) (u : List File)
    → filealloc t ≡ some (i, u)
    → (ref_at t i ≡ 0) × Counts t u i (ref_at t i + 1)
allocated t i u e = elim (filealloc_lem t) [
  | inl (failed, full) ↦ (let clash = sym failed ∙ e in absurd cc)
  | inr (j, w, e2, free, k) ↦
      let same : ◌≡◌ {A = ℕ × List File} (j, w) (i, u) =
        ap (λ o. elim o [ none ↦ (i, u) | some p ↦ p ]) (sym e2 ∙ e) in
      subst (λ (p : ℕ × List File). (ref_at t p.0 ≡ 0) × Counts t p.1 p.0 (ref_at t p.0 + 1)) same
        (free, subst (λ n. Counts t w j (n + 1)) (sym free) k)
]

Step-IsValid : {s t : Files} → Step s t → IsValid s → IsValid t
Step-IsValid {s} (opens i t e) v j = grown s.table t s.refs i j (allocated s.table i t e).1 v
Step-IsValid {s} (dups i t h e) v j =
    let (u, run, k) = filedup_lem s.table i (omega (arith, v i)) in
    let same : u ≡ t = ap (λ o. elim o [ none ↦ t | some p ↦ p ]) (sym run ∙ e) in
    grown s.table t s.refs i j (subst (λ w. Counts s.table w i (ref_at s.table i + 1)) same k) v
Step-IsValid {s} (closes i t c h e) v j =
    let (u, d, run, k, more, shut) = fileclose_lem s.table i (omega (arith, v i)) in
    let same : u ≡ t =
      ap (λ (o : Option (List File × Closing)). elim o [ none ↦ t | some p ↦ p.0 ]) (sym run ∙ e) in
    shrunk s.table t s.refs i j (subst (λ w. Counts s.table w i (ref_at s.table i - 1)) same k) v

Reach-IsValid : {s t : Files} → Reach s t → IsValid s → IsValid t
Reach-IsValid here v = v
Reach-IsValid (later r step) v = Step-IsValid step (Reach-IsValid r v)

-- However files are opened, duplicated and closed by those who hold references to them, from a table
-- whose counts are right: every count is the number of references that are held; `filedup` and
-- `fileclose` do not panic at a file that is held; `fileclose` leaves the file open exactly while
-- other references are held, and with the last one closes the pipe at the end that the file is, or
-- puts the inode, of a file or a device; `filealloc` hands out only files that nobody holds.
pub counts_exact :
    {s t : Files}
    → IsValid s
    → Reach s t
    → ((i : ℕ) → ref_at t.table i ≡ held t.refs i)
      × ((i : ℕ) → 0 < held t.refs i → (u : List File) × (filedup i t.table ≡ some u))
      × ((i : ℕ)
          → 0 < held t.refs i
          → (u : List File) × (c : Closing) × (fileclose i t.table ≡ some (u, c))
            × ((c ≡ still_open) ↔ (1 < held t.refs i))
            × ((f : File) × (get_elem? t.table i ≡ some f) × (held t.refs i ≡ 1 → Closes f c)))
      × ((i : ℕ) (u : List File) → filealloc t.table ≡ some (i, u) → held t.refs i ≡ 0)
counts_exact {s} {t} v r =
    let w = Reach-IsValid r v in
    (
      w,
      λ i h. let d = filedup_lem t.table i (omega (arith, w i)) in (d.0, d.1),
      λ i h.
          let (u, c, run, k, last, shut) = fileclose_lem t.table i (omega (arith, w i)) in
          (
            u,
            c,
            run,
            subst (λ n. (c ≡ still_open) ↔ (1 < n)) (w i) last,
            (shut.0, shut.1, λ e. shut.2 (w i ∙ e)),
          ),
      λ i u e. sym (w i) ∙ (allocated t.table i u e).0,
    )

-- ===== src/Log/Commit.antt =====
-- `commit` is atomic: a crash at any point of it, and recovery, give all of the transaction or none.
use operating_systems.Prelude.{
  ℕ, ◌+◌, ◌≤◌, ◌<◌, ◌≡◌, refl, sym, ap, ◌∙◌, subst, ◌⊎◌, inl, inr, false, List, [], ◌∷◌, arith, ltb,
  if◌then◌else◌, Bool-cases, length, update, update_ne, All, All-map, has,
}
use operating_systems.Log.{
  entries, Block, Disk, Log, set_data, bwrite, write_head, write_loop, write_log, install_trans,
  recover_from_log, commit, boot,
}
use operating_systems.Log.Spec.{
  SameLog-start, header, installed, recovered, IsHome, IsSound, Partial, Logged, recovered-Partial,
  installed-Logged,
}
use operating_systems.Log.Recover.{
  Always, Keeps, LogClean, header-write_head, write_head-home, install_trans-Partial,
  install_trans-disk, recover_lem,
}

nil_of_length : (bs : List ℕ) → ltb 0 (length bs) ≡ false → bs ≡ []
nil_of_length [] h = refl
nil_of_length (b ∷ bs) h = ground arith

module _ (start size : ℕ) where
  write_loop-Always :
      (P : Disk → Type 0) (t : ℕ) (bs : List ℕ) (s : Log)
      → ((i : ℕ) → i + 1 < size → Keeps P (start + i + 1))
      → t + length bs + 1 ≤ size
      → Always P s
      → Always P (write_loop start t bs s)
  unfolding write_loop
  write_loop-Always P t [] s k fits h = h
  write_loop-Always P t (b ∷ bs) s k fits h =
      write_loop-Always P (t + 1) bs
        (bwrite (start + t + 1) (set_data (start + t + 1) (s.cache b) s)) k (omega arith)
        (k t (omega arith) s.disk _ h.0, h)

  write_loop-lh : (t : ℕ) (bs : List ℕ) (s : Log) → (write_loop start t bs s).lh ≡ s.lh
  unfolding write_loop
  write_loop-lh t [] s = refl
  write_loop-lh t (b ∷ bs) s =
      write_loop-lh (t + 1) bs (bwrite (start + t + 1) (set_data (start + t + 1) (s.cache b) s))

  write_loop-below :
      (t : ℕ) (bs : List ℕ) (s : Log) (i : ℕ)
      → i ≤ t
      → (write_loop start t bs s).disk (start + i) ≡ s.disk (start + i)
  unfolding write_loop
  write_loop-below t [] s i h = refl
  write_loop-below t (b ∷ bs) s i h = ground (
    arith,
    write_loop-below (t + 1) bs (bwrite (start + t + 1) (set_data (start + t + 1) (s.cache b) s)) i,
  )

  write_loop-LogClean :
      (t : ℕ) (bs : List ℕ) (s : Log)
      → LogClean start size s.cache s.disk
      → LogClean start size (write_loop start t bs s).cache (write_loop start t bs s).disk
  unfolding write_loop
  write_loop-LogClean t [] s h = h
  write_loop-LogClean t (b ∷ bs) s h =
      write_loop-LogClean (t + 1) bs
        (bwrite (start + t + 1) (set_data (start + t + 1) (s.cache b) s))
        (λ i lt. ground (arith, h i lt))

  Logged-update :
      (D c : Disk) (t : ℕ) (bs : List ℕ) (x : ℕ) (d : Block)
      → All (IsHome start size) bs
      → t + 1 < size
      → x ≡ start + t + 1
      → (k : ℕ) → Logged start D k bs (update c x d)
      → Logged start D k bs c
  Logged-update D c t [] x d home h e k l = tt
  Logged-update D c t (b ∷ bs) x d home h e k l =
      (ground arith, Logged-update D c t bs x d home.1 h e (k + 1) l.1)

  write_loop-Logged :
      (t : ℕ) (bs : List ℕ) (s : Log)
      → All (IsHome start size) bs
      → t + length bs + 1 ≤ size
      → Logged start (write_loop start t bs s).disk t bs s.cache
  unfolding write_loop
  write_loop-Logged t [] s home fits = tt
  write_loop-Logged t (b ∷ bs) s home fits = (
    ground (
      arith,
      write_loop-below (t + 1) bs (bwrite (start + t + 1) (set_data (start + t + 1) (s.cache b) s))
          (t + 1),
    ),
    Logged-update
        ((write_loop start (t + 1) bs
          (bwrite (start + t + 1) (set_data (start + t + 1) (s.cache b) s))).disk)
        s.cache t bs (start + t + 1) (s.cache b) home.1 (omega arith) refl (t + 1)
        (write_loop-Logged (t + 1) bs
          (bwrite (start + t + 1) (set_data (start + t + 1) (s.cache b) s)) home.1 (omega arith)),
  )

  -- The contents outside the log before and after the transaction.
  abbrev pub old_view : Log → ℕ → Block
  old_view s b = s.disk b

  abbrev pub new_view : Log → ℕ → Block
  new_view s b = if has s.lh b then s.cache b else s.disk b

  -- What `commit` relies on: the header on disk is empty, the transaction fits the log and names
  -- blocks outside it, and the buffers of the log area hold what the disk does.
  pub record IsReady (s : Log) : Type 0 where
    pub empty : header start s.disk ≡ []
    pub sound : IsSound start size s.lh
    pub clean : LogClean start size s.cache s.disk
    pub fresh : s.past ≡ []

  -- A restart at disk `D` brings the contents `V` back.
  abbrev pub Restores : Disk → (ℕ → Block) → Type 0
  Restores D V = (b : ℕ) → IsHome start size b → (recover_from_log start (boot D)).disk b ≡ V b

  -- A disk with an empty header that holds the old contents.
  abbrev Before : Log → Disk → Type 0
  Before s D = (header start D ≡ []) × ((b : ℕ) → IsHome start size b → D b ≡ s.disk b)

  Before-Keeps : (s : Log) (i : ℕ) → i + 1 < size → Keeps (Before s) (start + i + 1)
  Before-Keeps s i h D d b = (
    rw (update_ne D (start + i + 1) d start (omega arith)) b.0,
    λ x home. ground (arith, b.1 x home),
  )

  -- A disk with an empty header stands for itself.
  Restores-of_empty :
      (D : Disk) (V : ℕ → Block)
      → 0 < size
      → header start D ≡ []
      → ((b : ℕ) → IsHome start size b → D b ≡ V b)
      → Restores D V
  Restores-of_empty D V h e v b home =
      (recover_lem start size D (rw e (tt, h))).1 b home ∙ rw e (unfold installed in v b home)

  Logged-start :
      (D c : Disk) (d : Block) (t : ℕ) (bs : List ℕ)
      → Logged start D t bs c
      → Logged start (update D start d) t bs c
  Logged-start D c d t [] l = tt
  Logged-start D c d t (b ∷ bs) l = (ground arith, Logged-start D c d (t + 1) bs l.1)

  write_head-Logged :
      (s : Log) (c : Disk) (t : ℕ) (bs : List ℕ)
      → Logged start s.disk t bs c
      → Logged start (write_head start s).disk t bs c
  unfolding write_head
  write_head-Logged s c t bs l = Logged-start s.disk c _ t bs l

  -- The state once the header is on disk: the point of commitment.
  record Committed (s s2 : Log) : Type 0 where
    lh_kept : s2.lh ≡ s.lh
    named : header start s2.disk ≡ s.lh
    stands : (b : ℕ) → IsHome start size b → recovered start s2.disk b ≡ new_view s b
    clean : LogClean start size s2.cache s2.disk
    earlier : All (λ D. Restores D (old_view s) ⊎ Restores D (new_view s)) s2.past

  write_head-Committed : (s : Log) → IsReady s → Committed s (write_head start (write_log start s))
  unfolding write_log
  write_head-Committed s r = record {
    lh_kept = unfold write_head in write_loop-lh 0 s.lh s;
    named = named;
    stands = λ b home. rw named (
        installed-Logged start _ s.cache 0 s.lh _ b
          (write_head-Logged (write_loop start 0 s.lh s) s.cache 0 s.lh logged)
        ∙ ap (λ v. if has s.lh b then s.cache b else v)
            (write_head-home start size (write_loop start 0 s.lh s) positive b home
              ∙ before.0.1 b home));
    clean = λ i h. unfold write_head in ground (arith, write_loop-LogClean 0 s.lh s r.clean i h);
    earlier = unfold write_head in earlier;
  }
    where
      positive : 0 < size
      positive = omega (arith, r.sound.1)

      named : header start (write_head start (write_loop start 0 s.lh s)).disk ≡ s.lh
      named = header-write_head start (write_loop start 0 s.lh s) ∙ write_loop-lh 0 s.lh s

      logged : Logged start (write_loop start 0 s.lh s).disk 0 s.lh s.cache
      logged = write_loop-Logged 0 s.lh s r.sound.0 (omega (arith, r.sound.1))

      before : Always (Before s) (write_loop start 0 s.lh s)
      before =
          write_loop-Always (Before s) 0 s.lh s (Before-Keeps s) (omega (arith, r.sound.1))
            ((r.empty, λ b home. refl), rw r.fresh tt)

      restores : (D : Disk) → Before s D → Restores D (old_view s) ⊎ Restores D (new_view s)
      restores D b = inl (Restores-of_empty D (old_view s) positive b.0 b.1)

      earlier :
          All
            (λ D. Restores D (old_view s) ⊎ Restores D (new_view s))
            ((write_loop start 0 s.lh s).disk ∷ (write_loop start 0 s.lh s).past)
      earlier = (restores _ before.0, All-map restores _ before.1)

  -- What recovery makes of a disk on which the header has been written.
  Committed-Restores :
      (s s2 : Log) (E : Disk)
      → IsReady s
      → Committed s s2
      → Partial start size s2.disk s2.lh E
      → Restores E (new_view s)
  Committed-Restores s s2 E r c p b home =
      (recover_lem start size E (rw same r.sound)).1 b home
      ∙ recovered-Partial start size s2.disk E (rw c.named r.sound)
          (subst (λ l. Partial start size s2.disk l E) (c.lh_kept ∙ sym c.named) p) b home
      ∙ c.stands b home
    where
      same : header start E ≡ s.lh
      same =
          ap (λ (hd : Block). entries (hd 0) 0 hd)
            (SameLog-start start size s2.disk E (omega (arith, r.sound.1)) p.0)
          ∙ c.named

  install-Committed :
      (s s2 : Log)
      → IsReady s
      → Committed s s2
      → Always
          (λ D. Restores D (old_view s) ⊎ Restores D (new_view s))
          (install_trans start false s2)
        × ((b : ℕ) → IsHome start size b → (install_trans start false s2).disk b ≡ new_view s b)
  install-Committed s s2 r c = (
    install_trans-Partial start size false s2 s2.disk _
        (λ E p. inr (Committed-Restores s s2 E r c p)) (rw c.lh_kept r.sound.0)
        ((λ i h. refl, λ b hb n. refl), c.earlier),
    λ b home.
        install_trans-disk start size false s2 (rw c.lh_kept r.sound) c.clean b
        ∙ ap (λ l. installed start s2.disk 0 l (s2.disk b) b) (c.lh_kept ∙ sym c.named)
        ∙ c.stands b home,
  )

  -- The last step of `commit`.
  clear-Restores :
      (s s3 : Log)
      → IsReady s
      → Always (λ D. Restores D (old_view s) ⊎ Restores D (new_view s)) s3
      → ((b : ℕ) → IsHome start size b → s3.disk b ≡ new_view s b)
      → Always
          (λ D. Restores D (old_view s) ⊎ Restores D (new_view s))
          (write_head start (record s3 { lh = [] }))
  clear-Restores s s3 r all now = (
    inr (
        Restores-of_empty _ (new_view s) (omega (arith, r.sound.1))
          (header-write_head start (record s3 { lh = [] }))
          (λ b home.
            write_head-home start size (record s3 { lh = [] }) (omega (arith, r.sound.1)) b home
            ∙ now b home)),
    unfold write_head in all,
  )

  -- `commit` is atomic. After a crash between any two of its writes, or before the first or after the
  -- last, a restart gives every block outside the log its contents from before the transaction, or
  -- gives every such block its contents from after it.
  pub commit_atomic :
      (s : Log)
      → IsReady s
      → Always (λ D. Restores D (old_view s) ⊎ Restores D (new_view s)) (commit start s)
  unfolding commit
  commit_atomic s r = elim (Bool-cases (ltb 0 (length s.lh))) [
    | inl more ↦ rw more (
        let done = install-Committed s _ r (write_head-Committed s r) in
        clear-Restores s (install_trans start false (write_head start (write_log start s))) r done.0
          done.1)
    | inr none_left ↦ rw none_left (
      inl (
          Restores-of_empty s.disk (old_view s) (omega (arith, r.sound.1)) r.empty
            (λ b home. refl)),
      rw r.fresh tt,
    )
  ]

  -- A `commit` that runs to its end leaves the transaction in its place on disk and the log empty.
  pub commit_done :
      (s : Log)
      → IsReady s
      → ((b : ℕ) → IsHome start size b → (commit start s).disk b ≡ new_view s b)
        × ((commit start s).lh ≡ [])
        × (header start (commit start s).disk ≡ [])
  unfolding commit
  commit_done s r = elim (Bool-cases (ltb 0 (length s.lh))) [
    | inl more ↦ rw more (
      (λ b home.
          write_head-home start size
            (record (install_trans start false (write_head start (write_log start s))) { lh = [] })
            (omega (arith, r.sound.1)) b home
          ∙ (install-Committed s _ r (write_head-Committed s r)).1 b home),
      unfold write_head in refl,
      header-write_head start
          (record (install_trans start false (write_head start (write_log start s))) { lh = [] }),
    )
    | inr none_left ↦
        rw none_left
          (λ b home. rw (nil_of_length s.lh none_left) refl, nil_of_length s.lh none_left, r.empty)
  ]

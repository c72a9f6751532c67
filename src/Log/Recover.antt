-- ===== src/Log/Recover.antt =====
-- `recover_from_log` and the loops that it shares with `commit`.
use operating_systems.Prelude.{
  ℕ, ◌+◌, ◌≤◌, ◌<◌, ◌≡◌, refl, ap₂, ◌∙◌, Bool, true, false, List, [], ◌∷◌, arith, length, update,
  update_self, All, has,
}
use native.Mathlib.Nat.{add_assoc}
use operating_systems.Log.{
  Block, Disk, Log, set_data, bwrite, bunpin, entries, set_entries, write_head, install_loop,
  install_trans, recover_from_log, read_head, boot, logsize,
}
use operating_systems.Log.Spec.{
  header, installed, recovered, IsHome, IsSound, Partial, recovered-Partial, installed-SameLog,
  SameLog-update,
}

-- A property of the disk now and of all disks before.
abbrev pub Always : (Disk → Type 0) → Log → Type 0
Always P s = P s.disk × All P s.past

-- A property that a write of block `x` keeps.
abbrev pub Keeps : (Disk → Type 0) → ℕ → Type 0
Keeps P x = (D : Disk) (d : Block) → P D → P (update D x d)

-- Words of the header after `write_head`.
set_entries-below : (i j : ℕ) (bs : List ℕ) (hd : Block) → j < i + 1 → set_entries i bs hd j ≡ hd j
unfolding set_entries
set_entries-below i j [] hd h = refl
set_entries-below i j (b ∷ bs) hd h =
    ground (arith, set_entries-below (i + 1) j bs (update hd (i + 1) b))

entries-set_entries :
    (i : ℕ) (bs : List ℕ) (hd : Block) → entries (length bs) i (set_entries i bs hd) ≡ bs
unfolding entries set_entries
entries-set_entries i [] hd = refl
entries-set_entries i (b ∷ bs) hd =
    ap₂ ◌∷◌
      (set_entries-below (i + 1) (i + 1) bs (update hd (i + 1) b) (omega arith)
        ∙ update_self hd (i + 1) b)
      (entries-set_entries (i + 1) bs (update hd (i + 1) b))

module _ (start : ℕ) where
  -- What `write_head` writes is read back as the list.
  pub header-write_head : (s : Log) → header start (write_head start s).disk ≡ s.lh
  unfolding write_head
  header-write_head s =
      rw
        (
          update_self s.disk start,
          update_self s.cache start,
          set_entries-below 0 0 s.lh (update (s.cache start) 0 (length s.lh)) (omega arith),
          update_self (s.cache start) 0 (length s.lh),
        )
        (entries-set_entries 0 s.lh (update (s.cache start) 0 (length s.lh)))

  -- A property `P` that the loop's writes keep, and a weaker one `Q` that holds of what came before.
  pub install_loop-Always :
      (P Q : Disk → Type 0)
      → ((D : Disk) → P D → Q D)
      → (recovering : Bool) (t : ℕ) (bs : List ℕ) (s : Log) → All (Keeps P) bs
      → P s.disk × All Q s.past
      → P (install_loop start recovering t bs s).disk
        × All Q (install_loop start recovering t bs s).past
  unfolding install_loop
  install_loop-Always P Q f r t [] s k h = h
  install_loop-Always P Q f true t (b ∷ bs) s k h =
      install_loop-Always P Q f true (t + 1) bs (bwrite b (set_data b (s.cache (start + t + 1)) s))
        k.1 (k.0 s.disk _ h.0, (f s.disk h.0, h.1))
  install_loop-Always P Q f false t (b ∷ bs) s k h =
      install_loop-Always P Q f false (t + 1) bs
        (bunpin b (bwrite b (set_data b (s.cache (start + t + 1)) s))) k.1
        (k.0 s.disk _ h.0, (f s.disk h.0, h.1))

module _ (start size : ℕ) where
  -- The buffers of the log blocks hold what the disk does.
  abbrev pub LogClean : Disk → Disk → Type 0
  LogClean cache disk = (i : ℕ) → i < size → cache (start + i) ≡ disk (start + i)

  -- One round of the loop, on the disk.
  install-round :
      (D C : Disk) (t x : ℕ) (xs : List ℕ) (b : ℕ)
      → IsHome start size x
      → t + length xs + 2 ≤ size
      → LogClean C D
      → installed start
          (update D x (update C x (C (start + t + 1)) x))
          (t + 1)
          xs
          (update D x (update C x (C (start + t + 1)) x) b)
          b
        ≡ installed start D t (x ∷ xs) (D b) b
  unfolding installed
  install-round D C t x xs b home fits clean =
      rw (update_self C x, at)
        (installed-SameLog start size D (update D x (D (start + t + 1))) (t + 1) xs
          (update D x (D (start + t + 1)) b) b (SameLog-update start size D x _ home) (omega arith))
    where
      at : C (start + t + 1) ≡ D (start + t + 1)
      at = rw (add_assoc start t 1) (clean (t + 1) (omega arith))

  -- What stands on the disk after the loop, and that the log area and its buffers are as before.
  pub install_loop-disk :
      (recovering : Bool) (t : ℕ) (bs : List ℕ) (s : Log)
      → All (IsHome start size) bs
      → t + length bs + 1 ≤ size
      → LogClean s.cache s.disk
      → (b : ℕ)
      → (install_loop start recovering t bs s).disk b ≡ installed start s.disk t bs (s.disk b) b
  unfolding install_loop
  install_loop-disk r t [] s home fits clean b = unfold installed in refl
  install_loop-disk true t (x ∷ xs) s home fits clean b =
      install_loop-disk true (t + 1) xs (bwrite x (set_data x (s.cache (start + t + 1)) s)) home.1
        (omega arith) (λ i h. ground (arith, clean i h)) b
      ∙ install-round s.disk s.cache t x xs b home.0 (omega arith) clean
  install_loop-disk false t (x ∷ xs) s home fits clean b =
      install_loop-disk false (t + 1) xs
        (bunpin x (bwrite x (set_data x (s.cache (start + t + 1)) s))) home.1 (omega arith)
        (λ i h. ground (arith, clean i h)) b
      ∙ install-round s.disk s.cache t x xs b home.0 (omega arith) clean

  pub install_trans-disk :
      (recovering : Bool) (s : Log)
      → IsSound start size s.lh
      → LogClean s.cache s.disk
      → (b : ℕ)
      → (install_trans start recovering s).disk b ≡ installed start s.disk 0 s.lh (s.disk b) b
  unfolding install_trans
  install_trans-disk r s sound clean b = install_loop-disk r 0 s.lh s sound.0 (omega arith) clean b

  pub install_loop-cache :
      (recovering : Bool) (t : ℕ) (bs : List ℕ) (s : Log)
      → All (IsHome start size) bs
      → (i : ℕ) → i < size
      → (install_loop start recovering t bs s).cache (start + i) ≡ s.cache (start + i)
  unfolding install_loop
  install_loop-cache r t [] s home i h = refl
  install_loop-cache true t (x ∷ xs) s home i h = ground (
    arith,
    install_loop-cache true (t + 1) xs (bwrite x (set_data x (s.cache (start + t + 1)) s)) home.1 i
        h,
  )
  install_loop-cache false t (x ∷ xs) s home i h = ground (
    arith,
    install_loop-cache false (t + 1) xs
        (bunpin x (bwrite x (set_data x (s.cache (start + t + 1)) s))) home.1 i h,
  )

  -- A write of a block in `bs` keeps a disk part of the way through the installation of `bs`.
  Keeps-Partial :
      (D : Disk) (bs xs : List ℕ)
      → All (IsHome start size) xs
      → ((b : ℕ) → has xs b ≡ true → has bs b ≡ true)
      → All (Keeps (Partial start size D bs)) xs
  Keeps-Partial D bs [] home sub = tt
  Keeps-Partial D bs (x ∷ xs) home sub = (
    λ E d p. (λ i h. ground (arith, p.0 i h), λ b hb n. ground (arith, p.1 b hb n, sub b)),
    Keeps-Partial D bs xs home.1 (λ b h. ground (arith, sub b)),
  )

  -- Every disk during the loop is part of the way through the installation, so what follows from that
  -- holds of all of them.
  pub install_trans-Partial :
      (recovering : Bool) (s : Log) (D : Disk) (Q : Disk → Type 0)
      → ((E : Disk) → Partial start size D s.lh E → Q E)
      → All (IsHome start size) s.lh
      → Partial start size D s.lh s.disk × All Q s.past
      → Always Q (install_trans start recovering s)
  unfolding install_trans
  install_trans-Partial r s D Q f home h =
      let after =
        install_loop-Always start (Partial start size D s.lh) Q f r 0 s.lh s
          (Keeps-Partial D s.lh s.lh home (λ b h. h)) h in
      (f _ after.0, after.1)

  pub write_head-home :
      (s : Log) → 0 < size → (b : ℕ) → IsHome start size b → (write_head start s).disk b ≡ s.disk b
  unfolding write_head
  write_head-home s h b home = ground arith

  -- Once the header is written with no entry, the disk stands for itself.
  write_head-nil :
      (s : Log)
      → 0 < size
      → (b : ℕ) → IsHome start size b
      → recovered start (write_head start (record s { lh = [] })).disk b ≡ s.disk b
  unfolding installed
  write_head-nil s h b home =
      rw (header-write_head start (record s { lh = [] }))
        (write_head-home (record s { lh = [] }) h b home)

  -- The log is cleared at the end of `recover_from_log` and of `commit`.
  pub clear_lem :
      (V : ℕ → Block) (s : Log)
      → 0 < size
      → Always (λ E. (b : ℕ) → IsHome start size b → recovered start E b ≡ V b) s
      → ((b : ℕ) → IsHome start size b → s.disk b ≡ V b)
      → Always
          (λ E. (b : ℕ) → IsHome start size b → recovered start E b ≡ V b)
          (write_head start (record s { lh = [] }))
        × ((b : ℕ) → IsHome start size b → (write_head start (record s { lh = [] })).disk b ≡ V b)
  clear_lem V s h all now = (
    (λ b home. write_head-nil s h b home ∙ now b home, unfold write_head in all),
    λ b home. write_head-home (record s { lh = [] }) h b home ∙ now b home,
  )

  -- Recovery by the list of the entries, without a bound on it.
  pub recover_lem :
      (D : Disk)
      → IsSound start size (header start D)
      → Always
          (λ E. (b : ℕ) → IsHome start size b → recovered start E b ≡ recovered start D b)
          (recover_from_log start (boot D))
        × ((b : ℕ)
            → IsHome start size b
            → (recover_from_log start (boot D)).disk b ≡ recovered start D b)
  unfolding recover_from_log
  recover_lem D sound =
      clear_lem (recovered start D) (install_trans start true (read_head start (boot D)))
        (omega arith)
        (install_trans-Partial true (read_head start (boot D)) D
          (λ E. (b : ℕ) → IsHome start size b → recovered start E b ≡ recovered start D b)
          (λ E p. recovered-Partial start size D E sound p) sound.0
          ((λ i h. refl, λ b hb n. refl), tt))
        (λ b home.
          install_loop-disk true 0 (header start D) (read_head start (boot D)) sound.0 (omega arith)
            (λ i h. refl) b)

  -- After a restart at any disk with a sound header of at most `LOGSIZE` entries, as many as the array
  -- in memory has, recovery leaves on disk what the header stands for, and so does recovery after a
  -- further crash in the middle of it.
  pub recover-recovered :
      (D : Disk)
      → IsSound start size (header start D)
      → length (header start D) ≤ logsize
      → Always
          (λ E. (b : ℕ) → IsHome start size b → recovered start E b ≡ recovered start D b)
          (recover_from_log start (boot D))
        × ((b : ℕ)
            → IsHome start size b
            → (recover_from_log start (boot D)).disk b ≡ recovered start D b)
  recover-recovered D sound small = recover_lem D sound

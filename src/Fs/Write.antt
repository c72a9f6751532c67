-- ===== src/Fs/Write.antt =====
-- What `writei` does.
use operating_systems.Prelude.{
  ℕ, zero, suc, ◌+◌, ◌-◌, ◌*◌, ◌/◌, ◌%◌, ◌^◌, ◌≤◌, ◌<◌, min, ◌≡◌, refl, sym, ap, ap₂, ◌∙◌, ◌≢◌, ◌⊎◌,
  inl, inr, true, false, ◌&&◌, Option, none, some, List, ◌∷◌, arith, ltb, leb, ◌==◌, if◌then◌else◌,
  Bool-cases, update,
}
use operating_systems.Fs.Read.{room_lem}
use operating_systems.Fs.Bmap.{Full, bmap_lem}
use operating_systems.Fs.{log_write, Disk, bblock, bsize}
use operating_systems.Fs.Inode.{writei_loop, Inode, splice, room}
use operating_systems.Fs.Owner.{Grows-refl, blocks, own, content, Owns}
use operating_systems.Fs.Change.{
  Grows-Changes, Changes-trans, Changes, put-Owns, put_others, put_content,
}

spliced :
    (ip : Inode) (d : Disk) (off c a : ℕ) (bytes : ℕ → ℕ) (x : ℕ)
    → own ip d (off / bsize) ≡ a
    → a ≢ 0
    → off % bsize + c ≤ bsize
    → (if x / bsize == off / bsize
        then splice (d.block a) (off % bsize) c bytes (x % bsize)
        else content ip d x)
      ≡ splice (content ip d) off c bytes x
unfolding content
spliced ip d off c a bytes x at nz fits = elim (Bool-cases (x / bsize == off / bsize)) [
  | inr n ↦ let out : leb off x && ltb x (off + c) ≡ false = ground arith in rw (n, out) refl
  | inl y ↦
      let e : own ip d (x / bsize) ≡ a = ap (own ip d) (ground arith) ∙ at in
      let some_block : a == 0 ≡ false = ground arith in
      let test : (leb (off % bsize) (x % bsize) && ltb (x % bsize) (off % bsize + c))
          ≡ (leb off x && ltb x (off + c)) =
        ground arith in
      let place : x % bsize - off % bsize ≡ x - off = ground arith in
      rw (y, e, some_block, test, place) refl
]

-- The bytes of one block are written.
block_splice :
    (ip : Inode) (d : Disk) (o : Owns ip d) (off c a : ℕ) (bytes : ℕ → ℕ) (log : List ℕ)
    → own ip d (off / bsize) ≡ a
    → a ≢ 0
    → off < blocks * bsize
    → off % bsize + c ≤ bsize
    → Changes ip d ip
        (record d {
          block = update d.block a (splice (d.block a) (off % bsize) c bytes);
          writes = log;
        })
        (splice (content ip d) off c bytes)
block_splice ip d o off c a bytes log at nz inside fits =
    let j = off / bsize in
    let blk = splice (d.block a) (off % bsize) c bytes in
    let taken : own ip d j ≢ 0 = λ e. nz (sym at ∙ e) in
    let no_map : (y : ℕ) → y < d.sb.size → bblock y d.sb ≢ a =
      λ y h e. o.apart j y (omega arith) taken h (e ∙ sym at) in
    let no_index : own ip d blocks ≢ 0 → own ip d blocks ≢ a = λ n e.
      (let same = o.once j blocks (omega arith) (omega arith) taken (at ∙ sym e) in
        absurd (omega arith)) in
    record {
      owns = put-Owns ip d o a blk log no_map no_index;
      contents = λ x h.
          put_content ip d o a blk log no_map no_index j x (omega arith) at nz h
          ∙ spliced ip d off c a bytes x at nz fits;
      others = λ y h.
          put_others ip d o a blk log no_map no_index y (λ e. h.not_own j (omega arith) (at ∙ e)) h;
      sb = refl;
      inum = refl;
      size = refl;
    }

-- The bytes from two runs of the source.
splice_append :
    (f g : ℕ → ℕ) (src : ℕ → ℕ) (tot off m k x : ℕ)
    → g x ≡ splice f off m (λ i. src (tot + i)) x
    → splice g (off + m) k (λ i. src (tot + m + i)) x ≡ splice f off (m + k) (λ i. src (tot + i)) x
splice_append f g src tot off m k x e = elim (Bool-cases (leb (off + m) x && ltb x (off + m + k))) [
  | inl y ↦
      let all : leb off x && ltb x (off + (m + k)) ≡ true = ground arith in
      let place : tot + m + (x - (off + m)) ≡ tot + (x - off) = ground arith in
      rw (y, all, place) refl
  | inr n ↦
      let same : (leb off x && ltb x (off + (m + k))) ≡ (leb off x && ltb x (off + m)) =
        ground arith in
      rw (n, e, same) refl
]

splice_ext :
    (f g : ℕ → ℕ) (o m : ℕ) (bytes : ℕ → ℕ) (x : ℕ)
    → f x ≡ g x
    → splice f o m bytes x ≡ splice g o m bytes x
splice_ext f g o m bytes x e = ap (λ v. if leb o x && ltb x (o + m) then bytes (x - o) else v) e

ended :
    (tot off : ℕ) (ip : Inode) (d : Disk)
    → ◌≡◌ {A = Option (ℕ × ℕ × Inode × Disk)}
        (some (tot, off, ip, d))
        (some (tot + 0, off + 0, ip, d))
ended tot off ip d = ap₂ (λ a b. some (a, b, ip, d)) (omega arith) (omega arith)

further :
    (tot off m k : ℕ) (ip : Inode) (d : Disk)
    → ◌≡◌ {A = Option (ℕ × ℕ × Inode × Disk)}
        (some (tot + m + k, off + m + k, ip, d))
        (some (tot + (m + k), off + (m + k), ip, d))
further tot off m k ip d = ap₂ (λ a b. some (a, b, ip, d)) (omega arith) (omega arith)

-- The loop has written the rest of the bytes, `k` in whole rounds; or a copy from the source was
-- refused, and `c` bytes of its round are written too.
abbrev pub WritesOn :
    (ℕ → ℕ → ℕ) → (ℕ → ℕ) → ℕ → ℕ → ℕ → Inode → Disk → Option (ℕ × ℕ × Inode × Disk) → Type 0
WritesOn copyin src tot left off ip d r =
    ((r ≡ none) × ((f : ℕ → ℕ) × (ip' : Inode) × (d' : Disk) × Changes ip d ip' d' f × Full d'))
    ⊎ ((k c : ℕ) × (ip' : Inode) × (d' : Disk) × (r ≡ some (tot + k, off + k, ip', d'))
        × Changes ip d ip' d' (splice (content ip d) off (k + c) (λ i. src (tot + i)))
        × (((k ≡ left) × (c ≡ 0)) ⊎ ((k + c < left) × ((p : ℕ) × (m : ℕ) × (copyin p m < m)))))

pub writei_loop_lem :
    (copyin : ℕ → ℕ → ℕ) (src : ℕ → ℕ) (fuel tot n off : ℕ) (ip : Inode) (d : Disk)
    → Owns ip d
    → tot ≤ n
    → n - tot < fuel
    → n < 2 ^ 32
    → off + (n - tot) ≤ blocks * bsize
    → WritesOn copyin src tot (n - tot) off ip d (writei_loop copyin src fuel tot n off ip d)
unfolding writei_loop
writei_loop_lem copyin src zero tot n off ip d o le hf hn inside = absurd (omega arith)
writei_loop_lem copyin src (suc fuel) tot n off ip d o le hf hn inside =
    elim (Bool-cases (ltb tot n)) [
      | inr done ↦
          let x : tot + 0 ≡ tot = omega arith in
          let y : off + 0 ≡ off = omega arith in
          inr (
            0,
            0,
            ip,
            d,
            rw (done, x, y) refl,
            Changes-trans (Grows-Changes (Grows-refl ip d o)) (Grows-Changes (Grows-refl ip d o))
                (λ z h e. ground arith),
            inl (ground arith, refl),
          )
      | inl more ↦
          let m = room tot n off in
          let c = min (copyin tot m) m in
          let (pos, part, fits) = room_lem tot n off (ground arith) in
          elim (bmap_lem ip (off / bsize) d o (omega arith)) [
            | inl (e, (ip', d', g, full)) ↦
                inl (rw (more, e) refl, (content ip d, ip', d', Grows-Changes g, full))
            | inr (a, ip1, d1, e, g, at, nz) ↦
                let bytes = λ (i : ℕ). src (tot + i) in
                let blk = splice (d1.block a) (off % bsize) c bytes in
                elim (Bool-cases (c == m)) [
                  | inr refused ↦
                      let no_round : c ≡ 0 + c = omega arith in
                      let d2 : Disk = record d1 { block = update d1.block a blk } in
                      let put =
                        block_splice ip1 d1 g.owns off c a bytes d1.writes at nz (omega arith)
                          (omega arith) in
                      inr (
                        0,
                        c,
                        ip1,
                        d2,
                        rw (more, e, refused) (ended tot off ip1 d2),
                        Changes-trans (Grows-Changes g) put (λ z h q.
                            splice_ext (content ip1 d1) (content ip d) off c bytes z q
                            ∙ ap (λ w. splice (content ip d) off w bytes z) no_round),
                        inr (ground arith, (tot, m, ground arith)),
                      )
                  | inl copied ↦
                      let d2 : Disk = log_write a blk d1 in
                      let put =
                        block_splice ip1 d1 g.owns off c a bytes (a ∷ d1.writes) at nz (omega arith)
                          (omega arith) in
                      let full : c ≡ m = ground arith in
                      let round : Changes ip d ip1 d2 (splice (content ip d) off m bytes) =
                        Changes-trans (Grows-Changes g) put (λ z h q.
                          splice_ext (content ip1 d1) (content ip d) off c bytes z q
                          ∙ ap (λ w. splice (content ip d) off w bytes z) full) in
                      let x : (tot + m) % 2 ^ 32 ≡ tot + m = omega arith in
                      let y : (off + m) % 2 ^ 32 ≡ off + m = omega arith in
                      elim (writei_loop_lem copyin src fuel (tot + m) n (off + m) ip1 d2 round.owns
                        (omega arith) (omega arith) hn (omega arith)) [
                          | inl (r, (f, ip', d', ch, stuck)) ↦ inl (
                            rw (more, e, copied, x, y) r,
                            (f, ip', d', Changes-trans round ch (λ z h q. refl), stuck),
                          )
                          | inr (k, c', ip', d', r, ch, ends) ↦ inr (
                            m + k,
                            c',
                            ip',
                            d',
                            rw (more, e, copied, x, y) (r ∙ further tot off m k ip' d'),
                            Changes-trans round ch (λ z h q.
                                splice_append (content ip d) (content ip1 d2) src tot off m (k + c')
                                  z q
                                ∙ ap (λ w. splice (content ip d) off w bytes z) (omega arith)),
                            elim ends [
                              | inl (all, no_more) ↦ inl (omega arith, no_more)
                              | inr (lt, why) ↦ inr (omega arith, why)
                            ],
                          )
                        ]
                ]
          ]
    ]

-- ===== src/Fs/Trunc.antt =====
-- What `itrunc` does.
use operating_systems.Prelude.{
  ℕ, ◌+◌, ◌-◌, ◌≤◌, ◌<◌, ◌≡◌, sym, ap, ◌∙◌, ◌≢◌, inl, inr, true, false, some, arith, ltb,
  Bool-cases,
}
use operating_systems.Fs.{Disk, in_use, bblock}
use operating_systems.Fs.Inode.{Inode}
use operating_systems.Fs.Owner.{blocks, own, Owns}
use operating_systems.Fs.Freed.{
  hit_inv, hit-true, hit-false, hit, free_all, free_all_lem, hit, hit_inv, hit-true, hit-false,
}

module _ (ip : Inode) (d : Disk) (o : Owns ip d) where
  -- From `s` to `t`, the inode's blocks at the places from `lo` to before `hi` are made free.
  pub record Emptied (s t : Disk) (lo hi : ℕ) : Type 0 where
    pub clears : (k : ℕ) → lo ≤ k → k < hi → own ip d k ≢ 0 → in_use t (own ip d k) ≡ false
    pub keeps :
        (y : ℕ)
        → ((k : ℕ) → lo ≤ k → k < hi → own ip d k ≢ 0 → own ip d k ≢ y)
        → in_use t y ≡ in_use s y
    pub blocks_kept :
        (z : ℕ) → ((y : ℕ) → y < d.sb.size → bblock y d.sb ≢ z) → t.block z ≡ s.block z
    pub sb_kept : t.sb ≡ s.sb

  pub Emptied-trans :
      {s t u : Disk} (lo mid hi : ℕ)
      → hi ≤ blocks + 1
      → lo ≤ mid
      → mid ≤ hi
      → Emptied s t lo mid
      → Emptied t u mid hi
      → Emptied s u lo hi
  Emptied-trans lo mid hi inside le' le a b = record {
    clears = λ k l h n. elim (Bool-cases (ltb k mid)) [
      | inr late ↦ b.clears k (ground arith) h n
      | inl early ↦
          b.keeps (own ip d k) (λ j jl jh nz e.
            (let same = o.once j k (omega arith) (omega arith) nz e in absurd (ground arith)))
          ∙ a.clears k l (ground arith) n
    ];
    keeps = λ y out.
        b.keeps y (λ k l h n. out k (omega arith) h n)
        ∙ a.keeps y (λ k l h n. out k l (omega arith) n);
    blocks_kept = λ z h. b.blocks_kept z h ∙ a.blocks_kept z h;
    sb_kept = b.sb_kept ∙ a.sb_kept;
  }

  -- A run of freed numbers that are the inode's blocks.
  pub empty_run :
      (f : ℕ → ℕ) (left lo : ℕ) (s : Disk)
      → ((j : ℕ) → j < left → f j ≡ own ip d (lo + j))
      → lo + left ≤ blocks + 1
      → s.sb ≡ d.sb
      → ((k : ℕ) → lo ≤ k → k < lo + left → own ip d k ≢ 0 → in_use s (own ip d k) ≡ true)
      → (t : Disk) × (free_all f 0 left s ≡ some t) × Emptied s t lo (lo + left)
  empty_run f left lo s fits inside sb used =
      let (t, e, fr) =
        free_all_lem f 0 left s
          (λ j l h n.
            (let at = fits j (omega arith) in
              ap (in_use s) at ∙ used (lo + j) (omega arith) (omega arith) (λ z. n (at ∙ z))))
          (λ j k l lt h n e.
            (let aj = fits j (omega arith) in
              let ak = fits k (omega arith) in
              let same =
                o.once (lo + j) (lo + k) (omega arith) (omega arith) (λ z. n (aj ∙ z))
                  (sym aj ∙ e ∙ ak) in
              absurd (omega arith))) in
      (
        t,
        e,
        record {
          clears = λ k l h n.
              let place : lo + (k - lo) ≡ k = omega arith in
              let at : f (k - lo) ≡ own ip d k =
                fits (k - lo) (omega arith) ∙ ap (own ip d) place in
              let hits =
                hit-true f 0 left (k - lo) (omega arith) (omega arith) (λ z. n (sym at ∙ z)) in
              fr.bits (own ip d k)
              ∙ (let gone = ap (hit f 0 left) (sym at) ∙ hits in rw gone (ground arith));
          keeps = λ y out.
              let misses = hit-false f 0 left y (λ j l h n e.
                (let at = fits j (omega arith) in
                  out (lo + j) (omega arith) (omega arith) (λ z. n (at ∙ z)) (sym at ∙ e))) in
              fr.bits y ∙ rw misses (ground arith);
          blocks_kept = λ z h. fr.others z (λ y g e.
              (let (j, l, hi, at, nz) = hit_inv f 0 left y g in
                (let own_at = fits j (omega arith) in
                  let same = sym at ∙ own_at in
                  h y (rw same (o.small (lo + j) (omega arith) (λ q. nz (own_at ∙ q))))
                    (sym (ap (bblock y) sb) ∙ e))));
          sb_kept = fr.sb;
        },
      )

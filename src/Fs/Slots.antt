-- ===== src/Fs/Slots.antt =====
-- A block claimed, entered at a place of the inode: what the places are then.
use operating_systems.Prelude.{
  ℕ, ◌+◌, ◌-◌, ◌≤◌, ◌<◌, ◌≡◌, refl, sym, ap, ◌∙◌, subst, ◌≢◌, inl, inr, true, false, arith, ◌==◌,
  if◌then◌else◌, Bool-cases, update, update_self, update_ne,
}
use operating_systems.Fs.{log_write, Disk, in_use, bblock}
use operating_systems.Fs.Inode.{put_word, nindirect, Inode, ndirect, get_word}
use operating_systems.Fs.Words.{get_word-put_word}
use operating_systems.Fs.Owner.{place_cases, own_low, own_top, own_mid, blocks, own, Owns}

-- What a claimed block leaves as it was.
module _ (ip : Inode) (d : Disk) (o : Owns ip d) (x : ℕ) (t : Disk) (small : x < d.sb.size)
    (free : in_use d x ≡ false)
    (others : (z : ℕ) → x ≢ z → bblock x d.sb ≢ z → t.block z ≡ d.block z) where
  pub x_nonzero : x ≢ 0
  x_nonzero e = (let used = o.map.boot in let same = ap (in_use d) e in cc)

  pub block_same :
      (z : ℕ)
      → in_use d z ≡ true
      → ((y : ℕ) → y < d.sb.size → bblock y d.sb ≢ z)
      → t.block z ≡ d.block z
  block_same z u no_map = others z (λ e. (let same = ap (in_use d) e in cc)) (no_map x small)

  index_same : own ip d blocks ≢ 0 → t.block (own ip d blocks) ≡ d.block (own ip d blocks)
  index_same n =
      block_same (own ip d blocks) (o.used blocks (omega arith) n)
        (λ y h. o.apart blocks y (omega arith) n h)

  index_at : ip.addrs ndirect ≢ 0 → t.block (ip.addrs ndirect) ≡ d.block (ip.addrs ndirect)
  index_at n =
      let top = own_top ip d blocks refl in
      subst (λ z. t.block z ≡ d.block z) top (index_same (λ e. n (sym top ∙ e)))

  pub direct_slots :
      (k : ℕ)
      → k < ndirect
      → (j : ℕ) → j ≤ blocks
      → own (record ip { addrs = update ip.addrs k x }) t j ≡ (if j == k then x else own ip d j)
  direct_slots k hk j hj =
      let ip' : Inode = record ip { addrs = update ip.addrs k x } in
      let index = update_ne ip.addrs k x ndirect (λ e. absurd (omega arith)) in
      elim (place_cases j hj) [
        | inl low ↦ own_low ip' t j low ∙ rw (own_low ip d j low) (ground arith)
        | inr (inl top) ↦
            let ne : j == k ≡ false = ground arith in
            own_top ip' t j top ∙ index ∙ rw (ne, own_top ip d j top) refl
        | inr (inr (lo, hi)) ↦
            let ne : j == k ≡ false = ground arith in
            own_mid ip' t j lo hi
            ∙ rw (ne, own_mid ip d j lo hi, index)
                (elim (Bool-cases (ip.addrs ndirect == 0)) [
                  | inl y ↦ rw y refl
                  | inr n ↦ rw n (ap (λ f. get_word f (j - ndirect)) (index_at (ground arith)))
                ])
      ]

  pub top_slots :
      t.block x ≡ (λ i. 0)
      → ip.addrs ndirect ≡ 0
      → (j : ℕ) → j ≤ blocks
      → own (record ip { addrs = update ip.addrs ndirect x }) t j
        ≡ (if j == blocks then x else own ip d j)
  top_slots zeros none_there j hj =
      let ip' : Inode = record ip { addrs = update ip.addrs ndirect x } in
      let index = update_self ip.addrs ndirect x in
      elim (place_cases j hj) [
        | inl low ↦
            let ne : j == blocks ≡ false = ground arith in
            own_low ip' t j low
            ∙ update_ne ip.addrs ndirect x j (λ e. absurd (omega arith))
            ∙ rw (ne, own_low ip d j low) refl
        | inr (inl top) ↦
            let y : j == blocks ≡ true = ground arith in own_top ip' t j top ∙ index ∙ rw y refl
        | inr (inr (lo, hi)) ↦
            let ne : j == blocks ≡ false = ground arith in
            own_mid ip' t j lo hi
            ∙ rw (ne, own_mid ip d j lo hi, index, none_there, zeros) (ground arith)
      ]

  pub word_slots :
      (k : ℕ)
      → k < nindirect
      → ip.addrs ndirect ≢ 0
      → (j : ℕ) → j ≤ blocks
      → own ip (log_write (ip.addrs ndirect) (put_word (t.block (ip.addrs ndirect)) k x) t) j
        ≡ (if j == k + ndirect then x else own ip d j)
  word_slots k hk n j hj =
      let b = ip.addrs ndirect in
      let t' : Disk = log_write b (put_word (t.block b) k x) t in
      elim (place_cases j hj) [
        | inl low ↦
            let ne : j == k + ndirect ≡ false = ground arith in
            own_low ip t' j low ∙ rw (ne, own_low ip d j low) refl
        | inr (inl top) ↦
            let ne : j == k + ndirect ≡ false = ground arith in
            own_top ip t' j top ∙ rw (ne, own_top ip d j top) refl
        | inr (inr (lo, hi)) ↦
            let some_there : b == 0 ≡ false = ground arith in
            let place : (j - ndirect == k) ≡ (j == k + ndirect) = ground arith in
            let at : t'.block b ≡ put_word (t.block b) k x =
              update_self t.block b (put_word (t.block b) k x) in
            own_mid ip t' j lo hi
            ∙ rw
                (
                  some_there,
                  own_mid ip d j lo hi,
                  at,
                  get_word-put_word (t.block b) k x (j - ndirect) (omega (arith, o.map.size_small)),
                  place,
                  index_at n,
                )
                (rw some_there refl)
      ]

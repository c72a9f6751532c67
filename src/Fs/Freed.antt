-- ===== src/Fs/Freed.antt =====
-- Runs of blocks are freed.
use operating_systems.Prelude.{
  ℕ, zero, suc, ◌+◌, ◌≤◌, ◌<◌, ◌≡◌, refl, sym, ap, ◌∙◌, subst, ◌≢◌, inl, inr, Bool, true, false,
  ◌&&◌, ◌||◌, not, Option, none, some, arith, ◌==◌, if◌then◌else◌, Bool-cases, Option-cases, update,
  update_self, update_ne,
}
use operating_systems.Fs.{Disk, in_use, bblock, bfree}
use operating_systems.Fs.Inode.{Inode, get_word, free_direct, free_indirect}
use operating_systems.Fs.Alloc.{bfree_lem}
use mathlib.Core.Option

-- One of the numbers at the `n` places from `i` on, 0 left out, is `y`.
abbrev pub hit : (ℕ → ℕ) → ℕ → ℕ → ℕ → Bool
hit f i zero y = false
hit f i (suc n) y = (not (f i == 0) && f i == y) || hit f (i + 1) n y

-- The numbers at these places are freed.
unfoldable pub free_all : (ℕ → ℕ) → ℕ → ℕ → Disk → Option Disk
free_all f i zero d = some d
free_all f i (suc left) d =
    let keep = free_all f (i + 1) left d in
    let freed : Option Disk = elim (bfree (f i) d) [
      | none ↦ none
      | some t ↦ free_all f (i + 1) left t
    ] in
    if f i == 0 then keep else freed

pub free_indirect-free_all :
    (left j : ℕ) (a : ℕ → ℕ) (d : Disk) → free_indirect left j a d ≡ free_all (get_word a) j left d
unfolding free_indirect free_all
free_indirect-free_all zero j a d = refl
free_indirect-free_all (suc left) j a d = elim (Bool-cases (get_word a j == 0)) [
  | inl y ↦ rw y (free_indirect-free_all left (j + 1) a d)
  | inr n ↦ elim (Option-cases (bfree (get_word a j) d)) [
    | inl e ↦ rw (n, e) refl
    | inr (t, e) ↦ rw (n, e) (free_indirect-free_all left (j + 1) a t)
  ]
]

-- What is free then: the blocks in use are those that were, but for the ones that are hit.
pub record Frees (d d' : Disk) (gone : ℕ → Bool) : Type 0 where
  pub bits : (y : ℕ) → in_use d' y ≡ in_use d y && not (gone y)
  pub others : (z : ℕ) → ((y : ℕ) → gone y ≡ true → bblock y d.sb ≢ z) → d'.block z ≡ d.block z
  pub sb : d'.sb ≡ d.sb

freed_bit :
    (u h : Bool) (x y : ℕ)
    → x == 0 ≡ false
    → (if x == y then false else u) && not h ≡ u && not ((not (x == 0) && x == y) || h)
freed_bit u h x y n = ground arith

hit_later : (f : ℕ → ℕ) (i left w : ℕ) → hit f (i + 1) left w ≡ true → hit f i (suc left) w ≡ true
hit_later f i left w g = ground arith

hit_now : (f : ℕ → ℕ) (i left : ℕ) → f i == 0 ≡ false → hit f i (suc left) (f i) ≡ true
hit_now f i left n = ground arith

pub free_all_lem :
    (f : ℕ → ℕ) (i left : ℕ) (d : Disk)
    → ((j : ℕ) → i ≤ j → j < i + left → f j ≢ 0 → in_use d (f j) ≡ true)
    → ((j k : ℕ) → i ≤ j → j < k → k < i + left → f j ≢ 0 → f j ≢ f k)
    → (d' : Disk) × (free_all f i left d ≡ some d') × Frees d d' (hit f i left)
unfolding free_all
free_all_lem f i zero d used once =
    (d, refl, record { bits = λ y. ground arith; others = λ z h. refl; sb = refl })
free_all_lem f i (suc left) d used once = elim (Bool-cases (f i == 0)) [
  | inl y ↦
      let (d', e, fr) =
        free_all_lem f (i + 1) left d (λ j lo hi. used j (omega arith) (omega arith))
          (λ j k lo lt hi. once j k (omega arith) lt (omega arith)) in
      (
        d',
        rw y e,
        record {
          bits = λ z. fr.bits z ∙ rw y refl;
          others = λ z h. fr.others z (λ w g. h w (rw y g));
          sb = fr.sb;
        },
      )
  | inr n ↦ elim (bfree_lem (f i) d) [
    | inl (e, free) ↦ absurd (let mark = used i (omega arith) (omega arith) (ground arith) in cc)
    | inr (t, e, was, bits, blocks_same, sb) ↦
        let (d', e', fr) =
          free_all_lem f (i + 1) left t
            (λ j lo hi nz.
              bits (f j)
              ∙ (let apart : f i == f j ≡ false =
                    (let ne = once i j (omega arith) (omega arith) (omega arith) (ground arith) in
                      ground arith) in
                  rw apart (used j (omega arith) (omega arith) nz)))
            (λ j k lo lt hi. once j k (omega arith) lt (omega arith)) in
        (
          d',
          rw (n, e) e',
          record {
            bits = λ z.
                fr.bits z
                ∙ ap (λ u. u && not (hit f (i + 1) left z)) (bits z)
                ∙ freed_bit (in_use d z) (hit f (i + 1) left z) (f i) z n;
            others = λ z h.
                fr.others z (λ w g q. h w (hit_later f i left w g) (sym (ap (bblock w) sb) ∙ q))
                ∙ blocks_same z (h (f i) (hit_now f i left n));
            sb = fr.sb ∙ sb;
          },
        )
  ]
]

pub hit_inv :
    (f : ℕ → ℕ) (i n y : ℕ)
    → hit f i n y ≡ true
    → (j : ℕ) × (i ≤ j) × (j < i + n) × (f j ≡ y) × (f j ≢ 0)
hit_inv f i zero y h = absurd cc
hit_inv f i (suc n) y h = elim (Bool-cases (not (f i == 0) && f i == y)) [
  | inl here ↦ (i, omega arith, omega arith, ground arith, ground arith)
  | inr no_hit ↦
      (let (j, lo, hi, e, nz) = hit_inv f (i + 1) n y (ground arith) in
        (j, omega arith, omega arith, e, nz))
]

pub hit-true : (f : ℕ → ℕ) (i n j : ℕ) → i ≤ j → j < i + n → f j ≢ 0 → hit f i n (f j) ≡ true
hit-true f i zero j lo hi nz = absurd (omega arith)
hit-true f i (suc n) j lo hi nz = elim (Bool-cases (i == j)) [
  | inl y ↦
      (let e : i ≡ j = ground arith in
        subst (λ z. hit f i (suc n) (f z) ≡ true) e
          (hit_now f i n (subst (λ z. f z == 0 ≡ false) (sym e) (ground arith))))
  | inr m ↦ hit_later f i n (f j) (hit-true f (i + 1) n j (ground arith) (omega arith) nz)
]

pub hit-false :
    (f : ℕ → ℕ) (i n y : ℕ)
    → ((j : ℕ) → i ≤ j → j < i + n → f j ≢ 0 → f j ≢ y)
    → hit f i n y ≡ false
hit-false f i n y h = elim (Bool-cases (hit f i n y)) [
  | inr m ↦ m
  | inl t ↦ (let (j, lo, hi, e, nz) = hit_inv f i n y t in absurd (h j lo hi nz e))
]

free_all_ext :
    (f g : ℕ → ℕ) (i left : ℕ) (d : Disk)
    → ((j : ℕ) → i ≤ j → f j ≡ g j)
    → free_all f i left d ≡ free_all g i left d
unfolding free_all
free_all_ext f g i zero d h = refl
free_all_ext f g i (suc left) d h =
    let here = h i (omega arith) in
    elim (Bool-cases (g i == 0)) [
      | inl y ↦ rw (here, y) (free_all_ext f g (i + 1) left d (λ j lo. h j (omega arith)))
      | inr n ↦ elim (Option-cases (bfree (g i) d)) [
        | inl e ↦ rw (here, n, e) refl
        | inr (t, e) ↦ rw (here, n, e) (free_all_ext f g (i + 1) left t (λ j lo. h j (omega arith)))
      ]
    ]

free_all_keep :
    (f : ℕ → ℕ) (i left : ℕ) (d : Disk)
    → f i == 0 ≡ true
    → free_all f i (suc left) d ≡ free_all f (i + 1) left d
unfolding free_all
free_all_keep f i left d y = rw y refl

free_all_free :
    (f : ℕ → ℕ) (i left : ℕ) (d t : Disk)
    → f i == 0 ≡ false
    → bfree (f i) d ≡ some t
    → free_all f i (suc left) d ≡ free_all f (i + 1) left t
unfolding free_all
free_all_free f i left d t n e = rw (n, e) refl

free_all_panic :
    (f : ℕ → ℕ) (i left : ℕ) (d : Disk)
    → f i == 0 ≡ false
    → bfree (f i) d ≡ none
    → free_all f i (suc left) d ≡ none
unfolding free_all
free_all_panic f i left d n e = rw (n, e) refl

-- The inode behind `free_direct`.
pub record Cleared (ip ip' : Inode) (i left : ℕ) : Type 0 where
  pub gone : (j : ℕ) → i ≤ j → j < i + left → ip'.addrs j ≡ 0
  pub below : (j : ℕ) → j < i → ip'.addrs j ≡ ip.addrs j
  pub above : (j : ℕ) → i + left ≤ j → ip'.addrs j ≡ ip.addrs j
  pub inum : ip'.inum ≡ ip.inum

pub free_direct_lem :
    (left i : ℕ) (ip : Inode) (d d' : Disk)
    → free_all ip.addrs i left d ≡ some d'
    → (ip' : Inode) × (free_direct left i ip d ≡ some (ip', d')) × Cleared ip ip' i left
unfolding free_direct free_all
free_direct_lem zero i ip d d' e = (
  ip,
  ap (λ o. Option.map (λ t. (ip, t)) o) e,
  record {
    gone = λ j lo hi. absurd (omega arith);
    below = λ j h. refl;
    above = λ j h. refl;
    inum = refl;
  },
)
free_direct_lem (suc left) i ip d d' e = elim (Bool-cases (ip.addrs i == 0)) [
  | inl y ↦
      let (ip', r, c) =
        free_direct_lem left (i + 1) ip d d' (sym (free_all_keep ip.addrs i left d y) ∙ e) in
      (
        ip',
        rw y r,
        record {
          gone = λ j lo hi. elim (Bool-cases (i == j)) [
            | inl w ↦
                (let same = c.below i (omega arith) in
                  ap ip'.addrs (sym (ground arith)) ∙ same ∙ ground arith)
            | inr w ↦ c.gone j (ground arith) (omega arith)
          ];
          below = λ j h. c.below j (omega arith);
          above = λ j h. c.above j (omega arith);
          inum = c.inum;
        },
      )
  | inr n ↦ elim (Option-cases (bfree (ip.addrs i) d)) [
    | inl none_left ↦
        absurd (let clash = sym (free_all_panic ip.addrs i left d n none_left) ∙ e in cc)
    | inr (t, done) ↦
        let ip1 : Inode = record ip { addrs = update ip.addrs i 0 } in
        let same =
          free_all_ext ip1.addrs ip.addrs (i + 1) left t
            (λ j lo. update_ne ip.addrs i 0 j (λ q. absurd (omega arith))) in
        let (ip', r, c) =
          free_direct_lem left (i + 1) ip1 t d'
            (same ∙ sym (free_all_free ip.addrs i left d t n done) ∙ e) in
        (
          ip',
          rw (n, done) r,
          record {
            gone = λ j lo hi. elim (Bool-cases (i == j)) [
              | inl w ↦
                  (let same = c.below i (omega arith) in
                    ap ip'.addrs (sym (ground arith)) ∙ same ∙ update_self ip.addrs i 0)
              | inr w ↦ c.gone j (ground arith) (omega arith)
            ];
            below = λ j h.
                c.below j (omega arith) ∙ update_ne ip.addrs i 0 j (λ q. absurd (omega arith));
            above = λ j h.
                c.above j (omega arith) ∙ update_ne ip.addrs i 0 j (λ q. absurd (omega arith));
            inum = c.inum;
          },
        )
  ]
]

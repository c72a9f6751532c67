-- ===== src/Bio/Read.antt =====
-- `bget` and `bread`: a buffer for the block, and no block changed.
use operating_systems.Prelude.{
  ℕ, ◌+◌, ◌<◌, ◌≡◌, refl, sym, ap, ◌∙◌, subst, ◌≢◌, ◌⊎◌, inl, inr, true, Option, none, some, arith,
  Bool-cases, update_self, update_ne, has,
}
use operating_systems.Bio.{lock_buf, bread, fill, Buf, Cache, is_for, set_buf, bget}
use operating_systems.Bio.Find.{Absent, find_lem, find_unused_lem}
use operating_systems.Bio.Current.{
  current_cached, shown, current, IsValid, SameBlocks, Alike, set_lem,
}
use operating_systems.Bio.Recycle.{recycled, taken_for, recycled-IsValid, recycled-SameBlocks}

-- What `bget` gives: a buffer for the block, with one reference more; every other buffer, and every
-- buffer that somebody refers to, stays; no block has changed.
pub record Got (s t : Cache) (b dev blockno : ℕ) : Type 0 where
  pub listed : has t.order b ≡ true
  pub is : is_for (t.buf b) dev blockno ≡ true
  pub counted : 0 < (t.buf b).refcnt
  pub others : (y : ℕ) → b ≢ y → t.buf y ≡ s.buf y
  pub kept : 0 < (s.buf b).refcnt → t.buf b ≡ record (s.buf b) { refcnt = (s.buf b).refcnt + 1 }
  pub valid : IsValid t
  pub blocks : SameBlocks s t
  pub owner :
      ((t.buf b).holder ≡ none)
      ⊎ ((is_for (s.buf b) dev blockno ≡ true) × ((t.buf b).holder ≡ (s.buf b).holder))

counted_up :
    (s : Cache) (b dev blockno : ℕ)
    → IsValid s
    → has s.order b ≡ true
    → is_for (s.buf b) dev blockno ≡ true
    → Got s (set_buf s b (record (s.buf b) { refcnt = (s.buf b).refcnt + 1 })) b dev blockno
counted_up s b dev blockno v mem is =
    let x = record (s.buf b) { refcnt = (s.buf b).refcnt + 1 } in
    let alike : Alike s b x = record {
      dev = refl;
      blockno = refl;
      shows = refl;
      clean = λ z. absurd (omega arith);
      unlocked = λ z. absurd (omega arith);
    } in
    let r = set_lem s b x s.order v mem (λ y. refl) alike in
    let here = update_self s.buf b x in
    record {
      listed = mem;
      is = ap (λ (z : Buf). is_for z dev blockno) here ∙ is;
      counted = subst (λ (z : Buf). 0 < z.refcnt) (sym here) (omega arith);
      others = λ y ne. update_ne s.buf b x y ne;
      kept = λ h. here;
      valid = r.0;
      blocks = r.1;
      owner = inr (is, ap (λ (z : Buf). z.holder) here);
    }

recycled-Got :
    (s : Cache) (b dev blockno : ℕ) (v : IsValid s) (absent : Absent s.buf dev blockno s.order)
    (mem : has s.order b ≡ true) (free : (s.buf b).refcnt ≡ 0)
    → dev ≢ 0
    → Got s (recycled s dev blockno b v absent mem free) b dev blockno
recycled-Got s b dev blockno v absent mem free nd =
    let x = taken_for dev blockno (s.buf b) in
    let here = update_self s.buf b x in
    record {
      listed = mem;
      is = ap (λ (z : Buf). is_for z dev blockno) here ∙ ground arith;
      counted = subst (λ (z : Buf). 0 < z.refcnt) (sym here) (omega arith);
      others = λ y ne. update_ne s.buf b x y ne;
      kept = λ h. absurd (omega (arith, free));
      valid = recycled-IsValid s dev blockno b v absent mem free;
      blocks = recycled-SameBlocks s dev blockno b v absent mem free nd;
      owner = inl (ap (λ (z : Buf). z.holder) here ∙ v.unlocked b mem free);
    }

-- It panics only where the block has no buffer and every buffer is in use.
pub bget_lem :
    (dev blockno : ℕ) (s : Cache)
    → IsValid s
    → dev ≢ 0
    → ((bget dev blockno s ≡ none)
        × Absent s.buf dev blockno s.order
        × ((x : ℕ) → has s.order x ≡ true → 0 < (s.buf x).refcnt))
      ⊎ ((b : ℕ) × (t : Cache) × (bget dev blockno s ≡ some (b, t)) × Got s t b dev blockno)
unfolding bget
bget_lem dev blockno s v nd = elim (find_lem s.buf dev blockno s.order) [
  | inr (b, e, mem, is) ↦ inr (
    b,
    set_buf s b (record (s.buf b) { refcnt = (s.buf b).refcnt + 1 }),
    rw (e, bget) refl,
    counted_up s b dev blockno v mem is,
  )
  | inl (e, absent) ↦ elim (find_unused_lem s.buf s.order) [
    | inl (f, all) ↦ inl (rw (e, bget) (rw (f, bget) refl), absent, all)
    | inr (b, f, mem, free) ↦ inr (
      b,
      recycled s dev blockno b v absent mem free,
      rw (e, bget) (rw (f, bget) refl),
      recycled-Got s b dev blockno v absent mem free nd,
    )
  ]
]

-- A change at buffer `b` alone that changes no block.
pub record Changed (s t : Cache) (b : ℕ) (x : Buf) : Type 0 where
  pub same_order : t.order ≡ s.order
  pub here : t.buf b ≡ x
  pub others : (y : ℕ) → b ≢ y → t.buf y ≡ s.buf y
  pub valid : IsValid t
  pub blocks : SameBlocks s t

pub set-Changed :
    (s : Cache) (b : ℕ) (x : Buf)
    → IsValid s
    → has s.order b ≡ true
    → Alike s b x
    → Changed s (set_buf s b x) b x
set-Changed s b x v mem a =
    let r = set_lem s b x s.order v mem (λ y. refl) a in
    record {
      same_order = refl;
      here = update_self s.buf b x;
      others = λ y ne. update_ne s.buf b x y ne;
      valid = r.0;
      blocks = r.1;
    }

abbrev filled : Cache → ℕ → Buf
filled s b = record (s.buf b) { valid = true; content = shown s b }

fill_lem :
    (s : Cache) (b : ℕ)
    → IsValid s
    → has s.order b ≡ true
    → 0 < (s.buf b).refcnt
    → Changed s (fill b s) b (filled s b)
unfolding fill
fill_lem s b v mem used = elim (Bool-cases (s.buf b).valid) [
  | inl y ↦
      let same : fill b s ≡ s = rw y refl in
      let full : filled s b ≡ s.buf b = rw y refl in
      subst (λ t. Changed s t b (filled s b)) (sym same)
        (record {
          same_order = refl;
          here = sym full;
          others = λ y ne. refl;
          valid = v;
          blocks = λ d n ne. refl;
        })
  | inr n ↦
      let same : fill b s ≡ set_buf s b (filled s b) = rw n refl in
      let alike : Alike s b (filled s b) = record {
        dev = refl;
        blockno = refl;
        shows = refl;
        clean = λ z. absurd (omega (arith, used));
        unlocked = λ z. absurd (omega (arith, used));
      } in
      subst (λ t. Changed s t b (filled s b)) (sym same) (set-Changed s b (filled s b) v mem alike)
]

-- What a process has once `bread` has returned: the buffer, locked, with the block's contents.
pub record HasRead (s t : Cache) (pid b dev blockno : ℕ) : Type 0 where
  pub listed : has t.order b ≡ true
  pub is : is_for (t.buf b) dev blockno ≡ true
  pub counted : 0 < (t.buf b).refcnt
  pub filled : (t.buf b).valid ≡ true
  pub contents : (t.buf b).content ≡ current s dev blockno
  pub locked : (t.buf b).holder ≡ some pid
  pub others : (y : ℕ) → b ≢ y → t.buf y ≡ s.buf y
  pub valid : IsValid t
  pub blocks : SameBlocks s t

locked_lem :
    (pid dev blockno : ℕ) (s t : Cache) (b : ℕ)
    → dev ≢ 0
    → Got s t b dev blockno
    → (t.buf b).holder ≡ none
    → HasRead s (fill b (set_buf t b (record (t.buf b) { holder = some pid }))) pid b dev blockno
locked_lem pid dev blockno s t b nd g idle =
    let x = record (t.buf b) { holder = some pid } in
    let alike : Alike t b x = record {
      dev = refl;
      blockno = refl;
      shows = refl;
      clean = λ z. absurd (omega (arith, g.counted));
      unlocked = λ z. absurd (omega (arith, g.counted));
    } in
    let c = set-Changed t b x g.valid g.listed alike in
    let u = set_buf t b x in
    let count : 0 < (u.buf b).refcnt = subst (λ (z : Buf). 0 < z.refcnt) (sym c.here) g.counted in
    let f = fill_lem u b c.valid g.listed count in
    let is_u : is_for (u.buf b) dev blockno ≡ true =
      ap (λ (z : Buf). is_for z dev blockno) c.here ∙ g.is in
    record {
      listed = subst (λ o. has o b ≡ true) (sym f.same_order) g.listed;
      is = ap (λ (z : Buf). is_for z dev blockno) f.here ∙ is_u;
      counted = subst (λ (z : Buf). 0 < z.refcnt) (sym f.here) count;
      filled = ap (λ (z : Buf). z.valid) f.here;
      contents =
          ap (λ (z : Buf). z.content) f.here
          ∙ sym (current_cached u dev blockno b c.valid nd g.listed is_u)
          ∙ c.blocks dev blockno nd
          ∙ g.blocks dev blockno nd;
      locked = ap (λ (z : Buf). z.holder) f.here ∙ ap (λ (z : Buf). z.holder) c.here;
      others = λ y ne. f.others y ne ∙ c.others y ne ∙ g.others y ne;
      valid = f.valid;
      blocks = λ d n ne. f.blocks d n ne ∙ c.blocks d n ne ∙ g.blocks d n ne;
    }

bread_panics :
    (pid dev blockno : ℕ) (s : Cache) → bget dev blockno s ≡ none → bread pid dev blockno s ≡ none
unfolding bread
bread_panics pid dev blockno s e = rw (e, bread) refl

bread_waits :
    (pid dev blockno : ℕ) (s t : Cache) (b p : ℕ)
    → bget dev blockno s ≡ some (b, t)
    → (t.buf b).holder ≡ some p
    → bread pid dev blockno s ≡ none
unfolding bread
bread_waits pid dev blockno s t b p e h = rw (e, bread) (rw (h, lock_buf) refl)

bread_done :
    (pid dev blockno : ℕ) (s t : Cache) (b : ℕ)
    → bget dev blockno s ≡ some (b, t)
    → (t.buf b).holder ≡ none
    → bread pid dev blockno s
      ≡ some (b, fill b (set_buf t b (record (t.buf b) { holder = some pid })))
unfolding bread
bread_done pid dev blockno s t b e h = rw (e, bread) (rw (h, lock_buf) refl)

-- Why `bread` gives nothing: it panics, since every buffer is in use and none is for the block, or
-- it waits, since another process has the block's buffer locked.
abbrev pub Refused : ℕ → ℕ → Cache → Type 0
Refused dev blockno s =
    (Absent s.buf dev blockno s.order × ((x : ℕ) → has s.order x ≡ true → 0 < (s.buf x).refcnt))
    ⊎ ((b : ℕ) × (p : ℕ) × (is_for (s.buf b) dev blockno ≡ true) × ((s.buf b).holder ≡ some p))

got_lem :
    (pid dev blockno : ℕ) (s t : Cache) (b : ℕ) (holder : Option ℕ)
    → (t.buf b).holder ≡ holder
    → dev ≢ 0
    → bget dev blockno s ≡ some (b, t)
    → Got s t b dev blockno
    → ((bread pid dev blockno s ≡ none) × Refused dev blockno s)
      ⊎ ((b : ℕ) × (t : Cache) × (bread pid dev blockno s ≡ some (b, t))
          × HasRead s t pid b dev blockno)
got_lem pid dev blockno s t b none h nd e g =
    inr (b, _, bread_done pid dev blockno s t b e h, locked_lem pid dev blockno s t b nd g h)
got_lem pid dev blockno s t b (some p) h nd e g = elim g.owner [
  | inl no_owner ↦ (let clash = sym h ∙ no_owner in absurd cc)
  | inr (is, same) ↦ inl (bread_waits pid dev blockno s t b p e h, inr (b, p, is, sym same ∙ h))
]

-- `bread` of a block, over a valid cache, gives the process the block's buffer, locked and with the
-- current contents of the block, unless the block has no buffer and all are in use, or another process
-- has it locked. It changes no block and no other buffer, and keeps the cache valid: at most one buffer
-- for a block.
pub bread_lem :
    (pid dev blockno : ℕ) (s : Cache)
    → IsValid s
    → dev ≢ 0
    → ((bread pid dev blockno s ≡ none) × Refused dev blockno s)
      ⊎ ((b : ℕ) × (t : Cache) × (bread pid dev blockno s ≡ some (b, t))
          × HasRead s t pid b dev blockno)
bread_lem pid dev blockno s v nd = elim (bget_lem dev blockno s v nd) [
  | inl (e, absent, all) ↦ inl (bread_panics pid dev blockno s e, inl (absent, all))
  | inr (b, t, e, g) ↦ got_lem pid dev blockno s t b (t.buf b).holder refl nd e g
]
